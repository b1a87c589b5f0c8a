-- ===== src/Client/Reads/Recovery.antt =====
-- client.go: `Read` from a server that is unavailable for some calls, and answers from then on.
pub mod Reports
pub mod Server
use sink_go.Base.{
  All, [], ◌∷◌, length-append, append_assoc, ℕ, zero, suc, ◌+◌, ◌<◌, ◌≤◌, ◌≡◌, refl, sym, ap, subst,
  ◌∙◌, Bool, true, false, not, ◌&&◌, ◌==◌, none, some, List, [], ◌∷◌, ◌++◌, map, arith, length,
  replicate, ℤ, ok, err, >>=-eq-ok, ok_eq, wrap_err, wrap_err-eq-ok,
}
use sink_go.Client.Backoff.{RetryPolicy, next_backoff, wait_for_backoff}
use sink_go.Client.Backoff.Quiet.{wait_for_backoff-quiet, wait_for_backoff-ok}
use sink_go.Client.BatchLoop.Refines.{answers, run_batches-Refined}
use sink_go.Client.Config.{ClientConfig, to_count}
use sink_go.Client.Config.Usable.{IsUsable}
use sink_go.Client.Reads.{
  PendingRead, place_result, is_retryable, shift_read, absorb, all_pending, resume, on_decoded,
  on_reply, read_request, read_rounds, read_operations_with_retry, read_batch, read_batches,
}
use sink_go.Errors.{Status, unavailable, wrap, wrap_index, protocol}
use sink_go.Floats.{Floats}
use sink_go.Libraries.{Libraries}
use sink_go.Network.{Network}
use sink_go.Proto as Proto
use sink_go.Proto.Enums.{ReadStatus}
use sink_go.Results.{
  decode_items, decode_read_response, read_result, read_status_result, operation_failure,
}
use sink_go.Results.Loop.InOrder.{Numbered, decode_items-Numbered, set_next}
use sink_go.Results.Shifts.{operation_failure-shift, operation_failure-index}
use sink_go.Types.Documents.{document_from_proto}
use sink_go.Types.Outcomes.{ReadResult, zero_read_result}
use sink_go.Client.Reads.Recovery.Server.{
  Recovers, outcome_of, stay, outcomes, outcome-shift, decoded, absorb-outcomes,
}

module _ (lib : Libraries) (fl : Floats) (net : Network fl) (server : Recovers lib fl net) where
  open net use {World, read}
  open server use {outage}

  module _ (policy : RetryPolicy fl) where
    -- Within its attempts, a batch is answered, and the outage is over.
    rounds-outcomes :
        (left n : ℕ) (backoff : ℤ) (ops : List Proto.ReadOperation) (w : World)
        → n ≤ left
        → outage w ≡ n
        → ((read_rounds lib fl net policy
              (suc left)
              (all_pending 0 ops)
              backoff
              (replicate (length ops) zero_read_result)
              w).0
            ≡ ok (outcomes lib fl net server 0 ops))
          × (outage
                (read_rounds lib fl net policy
                  (suc left)
                  (all_pending 0 ops)
                  backoff
                  (replicate (length ops) zero_read_result)
                  w).1
              ≡ 0)
    unfolding read_rounds on_reply resume on_decoded
    rounds-outcomes left zero backoff ops w le e =
        let (answered, still) =
          server.up (read_request lib fl net policy (all_pending 0 ops)) w e in
        rw answered (
          rw (decoded lib fl net server ops) (
            rw (absorb-outcomes lib fl net server (left == 0) 0 ops [] zero_read_result refl)
              (refl, still)))
    rounds-outcomes zero (suc n) backoff ops w le e = absurd (omega arith)
    rounds-outcomes (suc left) (suc n) backoff ops w le e =
        let request = read_request lib fl net policy (all_pending 0 ops) in
        let (st, failed, code, fewer) = server.down request w n e in
        let w1 = (read request w).1 in
        let w2 = (wait_for_backoff fl net backoff policy.jitter w1).1 in
        let waited =
          wait_for_backoff-quiet fl net outage server.quiet_sleep server.quiet_random backoff
            policy.jitter w1 in
        let (answered, over) =
          rounds-outcomes left n (next_backoff fl backoff policy) ops w2 (omega arith)
            (waited ∙ fewer) in
        let more : (suc left == 0) ≡ false = ground arith in
        rw failed (
          rw code (
            rw more (
              rw (wait_for_backoff-ok fl net server.patient backoff policy.jitter w1)
                (answered, over))))

    read_operations_with_retry-outcomes :
        (ops : List Proto.ReadOperation) (w : World)
        → outage w < to_count policy.max_attempts
        → ((read_operations_with_retry lib fl net policy ops w).0
            ≡ ok (outcomes lib fl net server 0 ops))
          × (outage (read_operations_with_retry lib fl net policy ops w).1 ≡ 0)
    unfolding read_operations_with_retry
    read_operations_with_retry-outcomes ops w within = at (to_count policy.max_attempts) within
      where
        at :
            (count : ℕ)
            → outage w < count
            → ((read_rounds lib fl net policy count
                  (all_pending 0 ops)
                  policy.initial_backoff
                  (replicate (length ops) zero_read_result)
                  w).0
                ≡ ok (outcomes lib fl net server 0 ops))
              × (outage
                    (read_rounds lib fl net policy count
                      (all_pending 0 ops)
                      policy.initial_backoff
                      (replicate (length ops) zero_read_result)
                      w).1
                  ≡ 0)
        at zero lt = absurd (omega arith)
        at (suc left) lt =
            rounds-outcomes left (outage w) policy.initial_backoff ops w (omega arith) refl

  module _ (config : ClientConfig fl) (usable : IsUsable config) where
    abbrev Up : World → Unit {0} → Type 0
    Up w u = outage w < to_count config.read_retry.max_attempts

    Any : Proto.ReadOperation → Type 0
    Any o = Unit {0}

    All-Any : (ops : List Proto.ReadOperation) → All Any ops
    unfolding Any
    All-Any [] = tt
    All-Any (o ∷ ops) = (tt, All-Any ops)

    read_batch-outcomes :
        (ops : List Proto.ReadOperation) (w : World) (u : Unit {0})
        → 0 < length ops
        → length ops ≤ to_count config.max_operations
        → All Any ops
        → Up w u
        → ((read_batch lib fl net config ops w).0 ≡ ok (outcomes lib fl net server 0 ops))
          × Up (read_batch lib fl net config ops w).1 u
    unfolding read_batch
    read_batch-outcomes ops w u positive bounded any within =
        let (answered, over) = read_operations_with_retry-outcomes config.read_retry ops w within in
        (ap (wrap_err (wrap "read records: %w")) answered, omega (arith, usable.reads.attempts))

    -- With a usable configuration and a server that is unavailable for fewer calls than
    -- `MaxAttempts`, and then answers every read by its place and with no failure to retry, where
    -- no wait is cut short, the loop of `Read` returns no error and the answer to every operation,
    -- in order, with the indexes of the whole call. Neither the limit of a batch nor the outage
    -- shows.
    pub read_batches-outcomes :
        (ops : List Proto.ReadOperation) (w : World)
        → outage w < to_count config.read_retry.max_attempts
        → ((read_batches lib fl net config ops w).0 ≡ outcomes lib fl net server 0 ops)
          × ((read_batches lib fl net config ops w).1 ≡ none)
    unfolding read_batches
    read_batches-outcomes ops w within =
        let (rs, ended, still) =
          run_batches-Refined (outcome_of lib fl net server) (stay lib fl net server) shift_read
            (to_count config.max_operations) (outcome-shift lib fl net server)
            (read_batch lib fl net config) Up usable.batches Any read_batch-outcomes ops w tt
            (All-Any ops) within in
        (rs, ended)
