-- ===== src/Client/Reads/Attempts.antt =====
-- client.go: the number of calls of `readOperationsWithRetry`.
use sink_go.Base.{
  ℕ, zero, suc, ◌+◌, ◌≤◌, ◌≡◌, Bool, not, ◌||◌, Option, List, arith, length, ℤ, Result, ok, err,
  Bool-cases, inl, inr, is_empty, ◌==◌,
}
use sink_go.Client.Backoff.{RetryPolicy}
use sink_go.Client.Backoff.Quiet.{wait_for_backoff-quiet}
use sink_go.Client.Config.{to_count}
use sink_go.Client.Reads.{
  PendingRead, absorb, resume, on_decoded, on_reply, read_request, read_rounds,
  read_operations_with_retry,
}
use sink_go.Errors.{Error, Status, unavailable}
use sink_go.Floats.{Floats}
use sink_go.Libraries.{Libraries}
use sink_go.Network.{Network}
use sink_go.Proto as Proto
use sink_go.Results.{decode_read_response}
use sink_go.Types.Outcomes.{ReadResult}

-- A count of the read calls that the world has seen: a read adds one, waiting adds none.
pub record Counts (fl : Floats) (net : Network fl) : Type 0 where
  pub calls : Network.World net → ℕ
  pub counted :
      (request : Proto.ReadRequest) (w : Network.World net)
      → calls (Network.read net request w).1 ≡ calls w + 1
  pub quiet_sleep : (d : ℤ) (w : Network.World net) → calls (Network.sleep net d w).1 ≡ calls w
  pub quiet_random : (w : Network.World net) → calls (Network.random net w).1 ≡ calls w

module _ (lib : Libraries) (fl : Floats) (net : Network fl) (counts : Counts fl net) where
  open net use {World}
  open counts use {calls, counted, quiet_sleep, quiet_random}

  Within : ℕ → Result Error (List ReadResult) × World → Type 0
  Within n r = calls r.1 ≤ n

  resume-Within :
      (n : ℕ) (waited : Result Error (Unit {0})) (w : World)
      (r : Result Error (List ReadResult) × World)
      → calls w ≤ n
      → Within n r
      → Within n (resume lib fl net waited w r)
  unfolding resume Within
  resume-Within n (err e) w r h k = h
  resume-Within n (ok _) w r h k = k

  module _ (n : ℕ) (last : Bool) (pending : List PendingRead) (results : List ReadResult)
      (w1 : World) (waited : Result Error (Unit {0}) × World)
      (next_round : List PendingRead → List ReadResult → Result Error (List ReadResult) × World)
      (before : calls w1 ≤ n) (waiting : calls waited.1 ≤ n)
      (later : (next : List PendingRead) (results' : List ReadResult)
        → Within n (next_round next results')) where
    on_decoded-Within :
        (d : Result Error (List ReadResult))
        → Within n (on_decoded lib fl net last pending results w1 waited next_round d)
    unfolding on_decoded
    on_decoded-Within (err e) = unfold Within in before
    on_decoded-Within (ok decoded) =
        elim (Bool-cases (is_empty (absorb last pending decoded results).1)) [
          | inl done ↦ rw done (unfold Within in before)
          | inr more ↦ rw more (resume-Within n waited.0 waited.1 _ waiting (later _ _))
        ]

    on_reply-Within :
        (reply : Result Status (Option Proto.ReadResponse))
        → Within n (on_reply lib fl net last pending results w1 waited next_round reply)
    unfolding on_reply
    on_reply-Within (err st) = elim (Bool-cases (last || not (st.code == unavailable))) [
      | inl stop ↦ rw stop (unfold Within in before)
      | inr retry ↦ rw retry (resume-Within n waited.0 waited.1 _ waiting (later _ _))
    ]
    on_reply-Within (ok response) =
        on_decoded-Within (decode_read_response lib response (length pending))

  module _ (policy : RetryPolicy fl) where
    read_rounds-Within :
        (n left : ℕ) (pending : List PendingRead) (backoff : ℤ) (results : List ReadResult)
        (w : World)
        → calls w + left ≤ n
        → Within n (read_rounds lib fl net policy left pending backoff results w)
    unfolding read_rounds
    read_rounds-Within n zero pending backoff results w h = unfold Within in omega arith
    read_rounds-Within n (suc left) pending backoff results w h =
        let w1 = (Network.read net (read_request lib fl net policy pending) w).1 in
        let one = counted (read_request lib fl net policy pending) w in
        let same =
          wait_for_backoff-quiet fl net calls quiet_sleep quiet_random backoff policy.jitter w1 in
        on_reply-Within n (left == 0) pending results _ _ _ (omega arith) (omega arith)
          (λ next results'. read_rounds-Within n left next _ results' _ (omega arith)) _

    -- Where the world counts its read calls, and waiting adds none, reading a batch takes at most
    -- `MaxAttempts` calls.
    pub read_operations_with_retry-calls :
        (operations : List Proto.ReadOperation) (w : World)
        → calls (read_operations_with_retry lib fl net policy operations w).1
          ≤ calls w + to_count policy.max_attempts
    unfolding read_operations_with_retry Within
    read_operations_with_retry-calls operations w =
        read_rounds-Within _ (to_count policy.max_attempts) _ _ _ w (omega arith)
