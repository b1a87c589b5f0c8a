-- ===== src/Native/Scan/Attempts.antt =====
-- native.go: the number of calls of a scan.
use sink_go.Base.{
  ℕ, zero, suc, ◌+◌, ◌≤◌, ◌≡◌, Bool, not, ◌||◌, Option, arith, ℤ, Result, ok, err, Bool-cases, inl,
  inr, ◌==◌,
}
use sink_go.Client.Backoff.{RetryPolicy, next_backoff, wait_for_backoff}
use sink_go.Client.Backoff.Quiet.{wait_for_backoff-quiet}
use sink_go.Client.Config.{to_count, ClientConfig}
use sink_go.Errors.{Error, Status, retryable_scan_admission}
use sink_go.Floats.{Floats}
use sink_go.Libraries.{Libraries}
use sink_go.Native.Scan.{Scanned, scan_resume, scan_attempt, scan_rounds, scan_page}
use sink_go.Network.{Network}
use sink_go.Proto as Proto
use sink_go.Proto.Native as Native

-- A count of the scan calls that the world has seen: a scan adds one, and the clock, the context and
-- the random numbers add none.
pub record ScanCounts (fl : Floats) (net : Network fl) : Type 0 where
  pub calls : Network.World net → ℕ
  pub counted :
      (request : Native.ScanRequest) (w : Network.World net)
      → calls (Network.scan net request w).1 ≡ calls w + 1
  pub quiet_sleep : (d : ℤ) (w : Network.World net) → calls (Network.sleep net d w).1 ≡ calls w
  pub quiet_random : (w : Network.World net) → calls (Network.random net w).1 ≡ calls w
  pub quiet_timeout :
      (d : ℤ) (w : Network.World net) → calls (Network.with_timeout net d w) ≡ calls w
  pub quiet_cancel : (w : Network.World net) → calls (Network.cancel net w) ≡ calls w

module _ (lib : Libraries) (fl : Floats) (net : Network fl) (counts : ScanCounts fl net) where
  open net use {World}
  open counts use {calls, counted, quiet_sleep, quiet_random, quiet_timeout, quiet_cancel}

  attempt-le :
      (n : ℕ) (last : Bool) (w1 : World) (waited : Result Error (Unit {0}) × World)
      (rest : Scanned lib fl net) (reply : Result Status (Option Proto.ScanResponse))
      → calls w1 ≤ n
      → calls waited.1 ≤ n
      → calls rest.1 ≤ n
      → calls (scan_attempt lib fl net last w1 waited rest reply).1 ≤ n
  unfolding scan_attempt scan_resume
  attempt-le n last w1 waited rest (ok response) before waiting later = before
  attempt-le n last w1 (err e, w2) rest (err st) before waiting later =
      elim (Bool-cases (last || not (retryable_scan_admission st))) [
        | inl stop ↦ rw stop before
        | inr again ↦ rw again waiting
      ]
  attempt-le n last w1 (ok u, w2) rest (err st) before waiting later =
      elim (Bool-cases (last || not (retryable_scan_admission st))) [
        | inl stop ↦ rw stop before
        | inr again ↦ rw again later
      ]

  module _ (policy : RetryPolicy fl) (request : Native.ScanRequest) where
    rounds-le :
        (left : ℕ) (backoff : ℤ) (w : World)
        → calls (scan_rounds lib fl net policy request left backoff w).1 ≤ calls w + left
    unfolding scan_rounds
    rounds-le zero backoff w = omega arith
    rounds-le (suc left) backoff w =
        let w1 = (Network.scan net request w).1 in
        let one = counted request w in
        let same =
          wait_for_backoff-quiet fl net calls quiet_sleep quiet_random backoff policy.jitter w1 in
        let waited = wait_for_backoff fl net backoff policy.jitter w1 in
        let ih = rounds-le left (next_backoff fl backoff policy) waited.1 in
        elim (Bool-cases (Network.is_done net w)) [
          | inl ended ↦ rw ended (omega arith)
          | inr running ↦ rw running (
              attempt-le (calls w + suc left) (left == 0) w1 waited _ (Network.scan net request w).0
                (omega arith) (omega arith) (omega arith))
        ]

  -- Where the world counts its scan calls, and the clock, the context and the random numbers add
  -- none, a page is asked for with at most `MaxAttempts` calls.
  pub scan_page-calls :
      (config : ClientConfig fl) (limit : ℕ) (request : Native.ScanRequest) (w : World)
      → calls (scan_page lib fl net config limit request w).1
        ≤ calls w + to_count config.scan_retry.max_attempts
  unfolding scan_page
  scan_page-calls config limit request w =
      let policy = config.scan_retry in
      let started = Network.with_timeout net config.scan_timeout w in
      let bound =
        rounds-le policy request (to_count policy.max_attempts) policy.initial_backoff started in
      let same = quiet_timeout config.scan_timeout w in
      let ends =
        quiet_cancel
          (scan_rounds lib fl net policy request (to_count policy.max_attempts)
            policy.initial_backoff started).1 in
      omega arith
