-- ===== src/Client/Reads.antt =====
-- client.go: `Read` with its batches and its retries.
pub mod Rounds
pub mod Batches
pub mod Attempts
pub mod Recovery
use sink_go.Base.{
  ℕ, zero, suc, ◌+◌, Bool, true, false, not, ◌&&◌, ◌||◌, Option, none, some, List, [], ◌∷◌, ◌++◌,
  map, length, is_empty, take, drop, set, replicate, ℤ, String, Result, ok, err, ◌>>=◌, ◌==◌,
  wrap_err, if◌then◌else◌,
}
use sink_go.Client.Backoff.{RetryPolicy, next_backoff, wait_for_backoff}
use sink_go.Client.BatchLoop.{run_batches}
use sink_go.Client.Config.{Client, ClientConfig, validate_collection, to_count}
use sink_go.Errors.{Error, wrap, wrap_index, Status, unavailable, OperationError}
use sink_go.Errors
use sink_go.Floats.{Floats}
use sink_go.Libraries.{Libraries}
use sink_go.Network.{Network}
use sink_go.Proto as Proto
use sink_go.Results.{decode_read_response}
use sink_go.Types.Keys.{Address, validate_address}
use sink_go.Types.Operations.{address_to_proto}
use sink_go.Types.Outcomes.{shift_failure, ReadResult, zero_read_result}

-- `pendingRead`
pub record PendingRead : Type 0 where
  pub index : ℕ
  pub operation : Proto.ReadOperation

abbrev pub move_failure : ℕ → Option OperationError → Option OperationError
move_failure index none = none
move_failure index (some f) = some (record f { operation_index = index })

-- A decoded result under the index of the operation that it belongs to.
abbrev pub place_result : ℕ → ReadResult → ReadResult
place_result index r = record r { operation_index = index; failure = move_failure index r.failure }

abbrev pub is_retryable : Option OperationError → Bool
is_retryable none = false
is_retryable (some f) = f.retryable

-- The loop over the decoded results: what the results are then, and what is read again.
unfoldable pub absorb :
    Bool → List PendingRead → List ReadResult → List ReadResult → List ReadResult × List PendingRead
absorb last (work ∷ pending) (r ∷ decoded) results =
    let (results', next) =
      absorb last pending decoded (set results work.index (place_result work.index r)) in
    (results', if not last && is_retryable r.failure then work ∷ next else next)
absorb last _ _ results = (results, [])

-- The first list of pending reads: every operation at its place.
unfoldable pub all_pending : ℕ → List Proto.ReadOperation → List PendingRead
all_pending index [] = []
all_pending index (op ∷ ops) =
    record { index = index; operation = op } ∷ all_pending (suc index) ops

-- `remapReadIndexes` on one result.
abbrev pub shift_read : ℕ → ReadResult → ReadResult
shift_read offset r = record r {
  operation_index = r.operation_index + offset;
  failure = shift_failure offset r.failure;
}

-- The validation loop of `Read`.
unfoldable pub read_requests : ℕ → List Address → Result Error (List Proto.ReadOperation)
read_requests index [] = ok []
read_requests index (a ∷ addresses) = do
  checked ← wrap_err (wrap_index "read operation %d: %w" index) (validate_address a)
  rest ← read_requests (suc index) addresses
  ok (record { address = address_to_proto a } ∷ rest)

module _ (lib : Libraries) (fl : Floats) (net : Network fl) where
  open net use {World, read}

  -- `if err := waitForBackoff(…); err != nil { return nil, err }` in front of the next round.
  unfoldable pub resume :
      Result Error (Unit {0})
      → World
      → Result Error (List ReadResult) × World
      → Result Error (List ReadResult) × World
  resume (err e) w next_round = (err e, w)
  resume (ok _) w next_round = next_round

  -- A round behind its RPC: `next_round` goes on with the reads that are left and the results so far.
  module _ (last : Bool) (pending : List PendingRead) (results : List ReadResult) (w1 : World)
      (waited : Result Error (Unit {0}) × World)
      (next_round : List PendingRead
        → List ReadResult
        → Result Error (List ReadResult) × World) where
    unfoldable pub on_decoded :
        Result Error (List ReadResult) → Result Error (List ReadResult) × World
    on_decoded (err e) = (err e, w1)
    on_decoded (ok decoded) =
        let (results', next) = absorb last pending decoded results in
        if is_empty next
        then (ok results', w1)
        else resume waited.0 waited.1 (next_round next results')

    unfoldable pub on_reply :
        Result Status (Option Proto.ReadResponse) → Result Error (List ReadResult) × World
    on_reply (err st) =
        if last || not (st.code == unavailable)
        then (err (Errors.status st), w1)
        else resume waited.0 waited.1 (next_round pending results)
    on_reply (ok response) = on_decoded (decode_read_response lib response (length pending))

  module _ (policy : RetryPolicy fl) where
    abbrev pub read_request : List PendingRead → Proto.ReadRequest
    read_request pending = record { operations = map (λ (p : PendingRead). p.operation) pending }

    -- The rounds of `readOperationsWithRetry`; `left` more follow this one, so `attempt` is
    -- `MaxAttempts` where `left` is zero.
    unfoldable pub read_rounds :
        ℕ → List PendingRead → ℤ → List ReadResult → World → Result Error (List ReadResult) × World
    read_rounds zero pending backoff results w = (ok results, w)
    read_rounds (suc left) pending backoff results w =
        let (reply, w1) = read (read_request pending) w in
        let waited = wait_for_backoff fl net backoff policy.jitter w1 in
        let backoff' = next_backoff fl backoff policy in
        on_reply (left == 0) pending results w1 waited
          (λ next results'. read_rounds left next backoff' results' waited.1) reply

    unfoldable pub read_operations_with_retry :
        List Proto.ReadOperation → World → Result Error (List ReadResult) × World
    read_operations_with_retry operations =
        read_rounds (to_count policy.max_attempts) (all_pending 0 operations) policy.initial_backoff
          (replicate (length operations) zero_read_result)

  -- The batch of one round of the loop in `Read`.
  unfoldable pub read_batch :
      ClientConfig fl → List Proto.ReadOperation → World → Result Error (List ReadResult) × World
  read_batch config operations w =
      let (r, w') = read_operations_with_retry config.read_retry operations w in
      (wrap_err (wrap "read records: %w") r, w')

  unfoldable pub read_batches :
      ClientConfig fl → List Proto.ReadOperation → World → List ReadResult × Option Error × World
  read_batches config operations =
      run_batches (read_batch config) shift_read (to_count config.max_operations)
        (length operations) 0 operations []

  read_submitted :
      Client fl
      → World
      → Result Error (List Proto.ReadOperation)
      → List ReadResult × Option Error × World
  read_submitted c w (err e) = ([], some e, w)
  read_submitted c w (ok operations) = read_batches c.config operations w

  read_checked :
      List Address → World → Result Error (Client fl) → List ReadResult × Option Error × World
  read_checked addresses w (err e) = ([], some e, w)
  read_checked addresses w (ok c) = read_submitted c w (read_requests 0 addresses)

  -- `Client.Read`: the results so far, the error, and the world after the calls.
  unfoldable pub read_records :
      Option (Client fl) → List Address → World → List ReadResult × Option Error × World
  unfolding read_checked read_submitted
  read_records client addresses w =
      read_checked addresses w (validate_collection client "read" (length addresses))
