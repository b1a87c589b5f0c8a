-- ===== src/Client/Writes/Declared.antt =====
-- client.go: the requests that `Write` sends.
use sink_go.Base.{
  ℕ, ◌<◌, ◌≤◌, ◌≡◌, refl, sym, ap, ◌∙◌, subst, true, Option, some, List, [], ◌∷◌, ◌++◌, map,
  append-nil, append_assoc, length, length-map, All, All-append, Bytes, Result, ok, err,
}
use sink_go.Client.BatchLoop.Sent.{run_batches-keeps}
use sink_go.Client.Config.{Client, to_count}
use sink_go.Client.Config.Usable.{IsUsable}
use sink_go.Client.Writes.{
  contains, lua_programs, write_request, write_batch, write_batches, write_checked, write_submitted,
  write_records, shift_write,
}
use sink_go.Client.Writes.Delivery.{write_checked-same}
use sink_go.Client.Writes.Programs.{digests, Carried, Once, lua_programs-Carried}
use sink_go.Errors.{Error}
use sink_go.Floats.{Floats}
use sink_go.Libraries.{Libraries}
use sink_go.Network.{Network}
use sink_go.Proto as Proto
use sink_go.Proto.Enums.{CompletionMode}
use sink_go.Types.Operations.{WriteAction, WriteOperation, operation_to_proto}

-- If the operation of a request merges, then its program's digest is among those given.
abbrev pub Resolves : List Bytes → Option Proto.Action → Type 0
Resolves given (some (Proto.Action.merge m)) = contains given m.lua_program.sha256 ≡ true
Resolves given _ = Unit

-- A request with the caller's completion mode, with at least one operation and at most `size`, that
-- declares a program for the digest of every merge, and no digest twice.
pub record Declares (mode : CompletionMode) (size : ℕ) (request : Proto.WriteRequest) : Type 0 where
  pub by_mode : request.completion_mode ≡ mode
  pub nonempty : 0 < length request.operations
  pub bounded : length request.operations ≤ size
  pub resolved :
      All
        (λ (o : Proto.WriteOperation). Resolves (digests request.lua_programs) o.action)
        request.operations
  pub once : Once (digests request.lua_programs)

Carried-Resolves :
    (given : List Bytes) (a : WriteAction) (o : WriteOperation)
    → Carried given (record o { action = a })
    → Resolves given (operation_to_proto (record o { action = a })).action
unfolding operation_to_proto
Carried-Resolves given WriteAction.put o h = tt
Carried-Resolves given WriteAction.unspecified o h = tt
Carried-Resolves given WriteAction.merge o h = h refl

resolved :
    (given : List Bytes) (ops : List WriteOperation)
    → All (Carried given) ops
    → All (λ (o : Proto.WriteOperation). Resolves given o.action) (map operation_to_proto ops)
resolved given [] h = tt
resolved given (o ∷ ops) (c, h) = (Carried-Resolves given o.action o c, resolved given ops h)

-- The request of a batch.
pub write_request-Declares :
    (mode : CompletionMode) (size : ℕ) (ops : List WriteOperation)
    → 0 < length ops
    → length ops ≤ size
    → Declares mode size (write_request mode ops)
unfolding write_request
write_request-Declares mode size ops positive bounded =
    let (carried, once) = lua_programs-Carried ops in
    record {
      by_mode = refl;
      nonempty = subst (λ n. 0 < n) (sym (length-map ops operation_to_proto)) positive;
      bounded = subst (λ n. n ≤ size) (sym (length-map ops operation_to_proto)) bounded;
      resolved = resolved (digests (lua_programs [] ops)) ops carried;
      once = once;
    }

module _ (lib : Libraries) (fl : Floats) (net : Network fl) where
  open net use {World, write}

  module _ (log : World → List Proto.WriteRequest)
      (logged : (request : Proto.WriteRequest) (w : World)
        → log (write request w).1 ≡ log w ++ request ∷ []) where
    -- The requests that were sent between two worlds.
    pub record Sent (mode : CompletionMode) (size : ℕ) (before after : World) : Type 0 where
      pub requests : List Proto.WriteRequest
      pub sent : log after ≡ log before ++ requests
      pub declares : All (Declares mode size) requests

    Sent-none : (mode : CompletionMode) (size : ℕ) (w : World) → Sent mode size w w
    Sent-none mode size w = record { requests = []; sent = sym (append-nil (log w)); declares = tt }

    Sent-batch :
        (mode : CompletionMode) (size : ℕ) (before w : World) (ops : List WriteOperation)
        → 0 < length ops
        → length ops ≤ size
        → Sent mode size before w
        → Sent mode size before (write_batch lib fl net mode ops w).1
    unfolding write_batch
    Sent-batch mode size before w ops positive bounded s =
        let request = write_request mode ops in
        record {
          requests = s.requests ++ request ∷ [];
          sent =
              logged request w
              ∙ ap (λ l. l ++ request ∷ []) s.sent
              ∙ append_assoc (log before) s.requests (request ∷ []);
          declares =
              All-append (Declares mode size) s.requests (request ∷ []) s.declares
                (write_request-Declares mode size ops positive bounded, tt);
        }

    write_submitted-Declares :
        (mode : CompletionMode) (size : ℕ) (ops : List WriteOperation) (w : World)
        (checked : Result Error (Client fl))
        → 0 < size
        → ((c : Client fl) → checked ≡ ok c → to_count c.config.max_operations ≡ size)
        → Sent mode size w (write_submitted lib fl net mode ops w checked).2
    unfolding write_submitted write_batches
    write_submitted-Declares mode size ops w (err e) positive same = Sent-none mode size w
    write_submitted-Declares mode size ops w (ok c) positive same =
        let limit = to_count c.config.max_operations in
        let keep =
          run_batches-keeps (write_batch lib fl net mode) shift_write limit
            (subst (λ n. 0 < n) (sym (same c refl)) positive) (λ v. Sent mode size w v)
            (λ batch v p b s.
              Sent-batch mode size w v batch p (subst (λ n. length batch ≤ n) (same c refl) b) s) in
        keep (length ops) 0 ops [] w (Sent-none mode size w)

    -- With a usable configuration and a log to which each write request is added, the requests
    -- that `Write` sends have the caller's completion mode, at least one operation and at most as
    -- many as a batch may have, and declare a program for the digest of every merge among their
    -- operations, and no digest twice. This holds whatever the server replies.
    pub write_records-Declares :
        (c : Client fl) (mode : CompletionMode) (ops : List WriteOperation) (w : World)
        → IsUsable c.config
        → Sent mode
            (to_count c.config.max_operations)
            w
            (write_records lib fl net (some c) mode ops w).2
    unfolding write_records
    write_records-Declares c mode ops w usable =
        write_submitted-Declares mode (to_count c.config.max_operations) ops w
          (write_checked lib fl net (some c) mode ops) usable.batches
          (λ d e.
            ap (λ (x : Client fl). to_count x.config.max_operations)
              (sym (write_checked-same lib fl net c mode ops d e)))
