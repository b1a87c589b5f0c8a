-- ===== src/Native/Scan.antt =====
-- native.go: `Scan` with its retries.
pub mod Attempts
use sink_go.Base.{
  ℕ, zero, suc, ◌≡◌, refl, Bool, true, false, not, ◌&&◌, ◌||◌, Option, none, some, List, [], ◌∷◌,
  length, ltb, ◌==◌, Bytes, is_empty, ℤ, pos, ltb_ℤ, Result, ok, err, ◌>>=◌, ◌>>◌, fail_if,
  if◌then◌else◌,
}
use sink_go.Client.Backoff.{RetryPolicy, is_negative, next_backoff, wait_for_backoff}
use sink_go.Client.Config.{Client, ClientConfig, to_count}
use sink_go.Errors.{Error, new, wrap, protocol, Status, retryable_scan_admission}
use sink_go.Errors
use sink_go.Floats.{Floats}
use sink_go.Libraries.{Libraries}
use sink_go.Native.Commands.{Command, command_to_proto}
use sink_go.Native.Pages.{Projection, projection_to_proto, page_documents}
use sink_go.Native.Query.{page_limit}
use sink_go.Network.{Network}
use sink_go.Proto as Proto
use sink_go.Proto.Native as Native
use sink_go.Types.Documents.{Document}

pub record ScanRequest : Type 0 where
  pub command : Command
  pub batch_size : ℤ
  pub cursor : Bytes
  pub projection : Option Projection

pub record ScanResponse : Type 0 where
  pub documents : List Document
  pub next_cursor : Bytes

-- 64 KiB
abbrev pub max_cursor_bytes : ℕ
max_cursor_bytes = 65536

module _ (lib : Libraries) where
  unfoldable pub scan_message : ScanRequest → Result Error Native.ScanRequest
  scan_message req = do
    fail_if (is_negative req.batch_size || ltb_ℤ (pos 1000) req.batch_size)
        (new "scan batch size must be between 0 and 1000")
    fail_if (ltb max_cursor_bytes (length req.cursor)) (new "scan cursor exceeds byte limit")
    command ← command_to_proto lib req.command
    projection ← projection_to_proto req.projection
    ok (record {
      command = command;
      batch_size = to_count req.batch_size;
      cursor = req.cursor;
      projection = projection;
    })

  -- The checks behind the loop, on the response that it ended with.
  unfoldable pub scan_reply : ℕ → Option Proto.ScanResponse → Result Error ScanResponse
  scan_reply limit none = err (protocol "Scan" (new "response is empty"))
  scan_reply limit (some r) = do
    fail_if
        (ltb limit (length r.documents)
          || ltb max_cursor_bytes (length r.next_cursor)
          || not (is_empty r.next_cursor) && is_empty r.documents)
        (protocol "Scan" (new "invalid page or continuation cursor"))
    documents ← page_documents lib "Scan" r.documents
    ok (record { documents = documents; next_cursor = r.next_cursor })

module _ (lib : Libraries) (fl : Floats) (net : Network fl) where
  open net use {World, scan, is_done, with_timeout, cancel}

  abbrev pub Scanned : Type 0
  Scanned = Result Error (Option Proto.ScanResponse) × World

  -- `waitForBackoff` in front of the next attempt.
  unfoldable pub scan_resume : Result Error (Unit {0}) → World → Scanned → Scanned
  scan_resume (err e) w next_round = (err (wrap "scan page: %w" e), w)
  scan_resume (ok _) w next_round = next_round

  -- An attempt behind its RPC.
  unfoldable pub scan_attempt :
      (last : Bool)
      → World
      → Result Error (Unit {0}) × World
      → Scanned
      → Result Status (Option Proto.ScanResponse)
      → Scanned
  scan_attempt last w waited next_round (ok response) = (ok response, w)
  scan_attempt last w waited next_round (err st) =
      if last || not (retryable_scan_admission st)
      then (err (wrap "scan page: %w" (Errors.status st)), w)
      else scan_resume waited.0 waited.1 next_round

  module _ (policy : RetryPolicy fl) (request : Native.ScanRequest) where
    -- The loop of `Scan`; `left` more attempts follow this one.
    unfoldable pub scan_rounds : ℕ → ℤ → World → Scanned
    scan_rounds zero backoff w = (ok none, w)
    scan_rounds (suc left) backoff w =
        let (reply, w1) = scan request w in
        let waited = wait_for_backoff fl net backoff policy.jitter w1 in
        let rest = scan_rounds left (next_backoff fl backoff policy) waited.1 in
        if is_done w
        then (err (wrap "scan page: %w" Errors.context), w)
        else scan_attempt (left == 0) w1 waited rest reply

  unfoldable pub scan_page :
      ClientConfig fl → ℕ → Native.ScanRequest → World → Result Error ScanResponse × World
  scan_page config limit request w =
      let policy = config.scan_retry in
      let (r, w') =
        scan_rounds policy request (to_count policy.max_attempts) policy.initial_backoff
          (with_timeout config.scan_timeout w) in
      (r >>= scan_reply lib limit, cancel w')

  unfoldable pub scan_submitted :
      Client fl → ℕ → World → Result Error Native.ScanRequest → Result Error ScanResponse × World
  scan_submitted c limit w (err e) = (err e, w)
  scan_submitted c limit w (ok request) = scan_page c.config limit request w

  -- `Client.Scan`
  unfoldable pub scan_native :
      Option (Client fl) → ScanRequest → World → Result Error ScanResponse × World
  scan_native none req w = (err (new "scan requires a client"), w)
  scan_native (some c) req w = scan_submitted c (page_limit req.batch_size) w (scan_message lib req)
