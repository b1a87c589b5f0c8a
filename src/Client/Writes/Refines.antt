-- ===== src/Client/Writes/Refines.antt =====
-- client.go: `Write` against a server that takes the operations of a request one after the other, each
-- with the program that the request declares for it.
use sink_go.Base.{
  Option, Bool, true, All, Bytes, bytes_eq, bytes_eq→eq, if◌then◌else◌, Bool-cases, inl, inr, arith,
  ℕ, suc, ◌+◌, ◌<◌, ◌≤◌, ◌≡◌, refl, sym, ap, ◌∙◌, subst, false, ◌&&◌, ◌||◌, none, some, List, [],
  ◌∷◌, map, length, is_empty, ok, >>=-eq-ok, ok_eq,
}
use sink_go.Client.BatchLoop.Refines.{
  answers, effects, answers-map, effects-map, run_batches-answers,
}
use sink_go.Client.Config.{ClientConfig, to_count}
use sink_go.Client.Writes.Declared.{Declares, write_request-Declares}
use sink_go.Client.Writes.Programs.{
  digests, Carried, Named, Sourced, lua_programs-Sourced, lua_programs-Carried,
}
use sink_go.Types.Programs.{LuaProgram}
use sink_go.Client.Writes.{
  contains, lua_programs, write_request, check_documents, shift_write, write_reply, write_batch,
  write_batches,
}
use sink_go.Floats.{Floats}
use sink_go.Libraries.{Libraries}
use sink_go.Network.{Network}
use sink_go.Proto as Proto
use sink_go.Proto.Enums.{CompletionMode, is_applied}
use sink_go.Results.{
  write_result, write_document, write_failure, decode_write_response, decode_items,
}
use sink_go.Results.Shifts.{write_failure-shift}
use sink_go.Results.Loop.InOrder.{Numbered, decode_items-Numbered}
use sink_go.Types.Operations.{WriteAction, WriteOperation, operation_to_proto}
use sink_go.Types.Outcomes.{WriteResult, zero_write_result}

-- The program that a request declares for a digest.
abbrev pub program_named : List Proto.LuaProgram → Bytes → Option Proto.LuaProgram
program_named [] digest = none
program_named (p ∷ programs) digest =
    let rest = program_named programs digest in if bytes_eq p.sha256 digest then some p else rest

abbrev pub declared : List Proto.LuaProgram → Option Proto.Action → Option Proto.LuaProgram
declared programs (some (Proto.Action.merge m)) = program_named programs m.lua_program.sha256
declared programs _ = none

-- An operation of a request, with the program that the request declares for it.
abbrev pub Job : Type 0
Job = Option Proto.LuaProgram × Proto.WriteOperation

abbrev pub jobs : Proto.WriteRequest → List Job
jobs request =
    map (λ (o : Proto.WriteOperation). (declared request.lua_programs o.action, o))
      request.operations

-- A server that takes the operations of a request one after the other, if the request is for the
-- mode and within the size, and declares each program that it needs once. What the server does with
-- an operation, and what it reports by the operation's place, may depend on the declared program and
-- the world. `outcome` is what the client makes of the report, which it accepts; an operation that is
-- applied and that asks for its document gets one.
pub record Serves (lib : Libraries) (fl : Floats) (net : Network fl) (mode : CompletionMode)
    (size : ℕ) : Type 0 where
  pub effect : Job → Network.World net → Network.World net
  pub report : Job → Network.World net → Proto.WriteResult
  pub outcome : ℕ → Job → Network.World net → WriteResult
  pub well_formed :
      (i : ℕ) (j : Job) (w : Network.World net)
      → write_result lib i (report j w) ≡ ok (outcome i j w)
  pub returns :
      (i : ℕ) (j : Job) (w : Network.World net)
      → (j.1.return_document
          && is_applied (outcome i j w).status
          && is_empty (outcome i j w).document.payload)
        ≡ false
  pub replies :
      (request : Proto.WriteRequest) (w : Network.World net)
      → Declares mode size request
      → Network.write net request w ≡ (
        ok (
            some (record {
              results = map some (
                  answers
                    (λ i j v. record (report j v) { operation_index = i })
                    effect
                    0
                    (jobs request)
                    w);
            })),
        effects effect (jobs request) w,
      )

-- The program of the operation, if it merges.
abbrev own : WriteAction → LuaProgram → Option Proto.LuaProgram
own WriteAction.merge p = some (record { source = p.source; sha256 = p.sha256 })
own _ p = none

abbrev pub job : WriteOperation → Job
job o = (own o.action o.merge.program, operation_to_proto o)

program_named-Sourced :
    (sources : Bytes → Bytes) (programs : List Proto.LuaProgram) (digest : Bytes)
    → All (Sourced sources) programs
    → contains (digests programs) digest ≡ true
    → program_named programs digest ≡ some (record { source = sources digest; sha256 = digest })
unfolding contains
program_named-Sourced sources [] digest h k = cc
program_named-Sourced sources (p ∷ programs) digest (e, h) k =
    elim (Bool-cases (bytes_eq p.sha256 digest)) [
      | inl here ↦ rw here (
          ap (λ s. some (record { source = s; sha256 = p.sha256 })) (sym e)
          ∙ ap (λ d. some (record { source = sources d; sha256 = d }))
              (bytes_eq→eq p.sha256 digest here))
      | inr later ↦ rw later (
          program_named-Sourced sources programs digest h
            (in_rest (bytes_eq p.sha256 digest) (contains (digests programs) digest) k later))
    ]
  where
    in_rest : (a b : Bool) → (a || b) ≡ true → a ≡ false → b ≡ true
    in_rest a b h k = ground arith

declared-own :
    (sources : Bytes → Bytes) (programs : List Proto.LuaProgram) (a : WriteAction)
    (o : WriteOperation)
    → All (Sourced sources) programs
    → Named sources (record o { action = a })
    → Carried (digests programs) (record o { action = a })
    → declared programs (operation_to_proto (record o { action = a })).action
      ≡ own a o.merge.program
unfolding operation_to_proto
declared-own sources programs WriteAction.put o h named carried = refl
declared-own sources programs WriteAction.unspecified o h named carried = refl
declared-own sources programs WriteAction.merge o h named carried =
    program_named-Sourced sources programs o.merge.program.sha256 h (carried refl)
    ∙ ap (λ s. some (record { source = s; sha256 = o.merge.program.sha256 })) (named refl)

declared-jobs :
    (sources : Bytes → Bytes) (programs : List Proto.LuaProgram) (ops : List WriteOperation)
    → All (Sourced sources) programs
    → All (Named sources) ops
    → All (Carried (digests programs)) ops
    → map
        (λ (o : Proto.WriteOperation). (declared programs o.action, o))
        (map operation_to_proto ops)
      ≡ map job ops
declared-jobs sources programs [] h named carried = refl
declared-jobs sources programs (o ∷ ops) h (n, named) (c, carried) =
    ap
      (λ p.
        (p, operation_to_proto o)
        ∷ map (λ (q : Proto.WriteOperation). (declared programs q.action, q))
            (map operation_to_proto ops))
      (declared-own sources programs o.action o h n c)
    ∙ ap (λ l. job o ∷ l) (declared-jobs sources programs ops h named carried)

write_result-shift :
    (lib : Libraries) (k i : ℕ) (r : Proto.WriteResult) (x : WriteResult)
    → write_result lib i r ≡ ok x
    → write_result lib (i + k) r ≡ ok (shift_write k x)
unfolding write_result
write_result-shift lib k i r x h =
    let (d, a, h1) = >>=-eq-ok (write_document lib (is_applied r.status) r.document) _ h in
    let (f, b, h2) = >>=-eq-ok (write_failure lib r.status i r.failure) _ h1 in
    rw a (
      rw (write_failure-shift lib r.status k i r.failure f b)
        (ap (λ y. ok (shift_write k y)) (ok_eq h2)))

module _ (lib : Libraries) (fl : Floats) (net : Network fl) (mode : CompletionMode)
    (config : ClientConfig fl) (server : Serves lib fl net mode (to_count config.max_operations))
    (sources : Bytes → Bytes) where
  open net use {World}

  -- What the client is told of an operation with its own program, and what the operation does.
  abbrev outcome_of : ℕ → WriteOperation → World → WriteResult
  outcome_of i o w = server.outcome i (job o) w

  abbrev effect_of : WriteOperation → World → World
  effect_of o w = server.effect (job o) w

  abbrev report_at : ℕ → Job → World → Proto.WriteResult
  report_at i j v = record (server.report j v) { operation_index = i }

  outcome-shift :
      (offset i : ℕ) (o : WriteOperation) (w : World)
      → shift_write offset (outcome_of i o w) ≡ outcome_of (i + offset) o w
  outcome-shift offset i o w =
      let p = job o in
      ok_eq (
        sym (
          write_result-shift lib offset i (server.report p w) (server.outcome i p w)
            (server.well_formed i p w))
        ∙ server.well_formed (i + offset) p w)

  numbered :
      (i : ℕ) (ops : List WriteOperation) (w : World)
      → Numbered "Write"
          (λ (r : Proto.WriteResult). r.operation_index)
          (write_result lib)
          i
          (answers (λ j o. report_at j (job o)) effect_of i ops w)
          (answers outcome_of effect_of i ops w)
  unfolding write_result
  numbered i [] w = tt
  numbered i (o ∷ ops) w =
      (refl, server.well_formed i (job o) w, numbered (suc i) ops (effect_of o w))

  check_documents-answers :
      (i : ℕ) (ops : List WriteOperation) (w : World)
      → check_documents ops (answers outcome_of effect_of i ops w) ≡ ok tt
  unfolding check_documents operation_to_proto
  check_documents-answers i [] w = refl
  check_documents-answers i (o ∷ ops) w =
      rw (server.returns i (job o) w) (check_documents-answers (suc i) ops (effect_of o w))

  length-answers :
      (i : ℕ) (ops : List WriteOperation) (w : World)
      → length (answers (λ j o. report_at j (job o)) effect_of i ops w) ≡ length ops
  length-answers i [] w = refl
  length-answers i (o ∷ ops) w = ap suc (length-answers (suc i) ops (effect_of o w))

  served_batch :
      (ops : List WriteOperation) (w : World)
      → 0 < length ops
      → length ops ≤ to_count config.max_operations
      → All (Named sources) ops
      → write_batch lib fl net mode ops w
        ≡ (ok (answers outcome_of effect_of 0 ops w), effects effect_of ops w)
  unfolding write_batch write_reply write_request decode_write_response
  served_batch ops w positive bounded named =
      let rs = answers (λ j o. report_at j (job o)) effect_of 0 ops w in
      let decoded =
        subst
          (λ n.
            decode_items "Write" (λ (r : Proto.WriteResult). r.operation_index) (write_result lib)
              zero_write_result (map some rs) n
            ≡ ok (answers outcome_of effect_of 0 ops w))
          (length-answers 0 ops w)
          (decode_items-Numbered "Write" (λ (r : Proto.WriteResult). r.operation_index)
            (write_result lib) rs (answers outcome_of effect_of 0 ops w) zero_write_result
            (numbered 0 ops w)) in
      let same =
        declared-jobs sources (lua_programs [] ops) ops (lua_programs-Sourced sources [] ops named)
          named (lua_programs-Carried ops).0 in
      rw
        (server.replies (write_request mode ops) w
          (write_request-Declares mode (to_count config.max_operations) ops positive bounded))
        (rw same (
          rw (answers-map job report_at server.effect 0 ops w) (
            rw (effects-map job server.effect ops w)
              (rw decoded (rw (check_documents-answers 0 ops w) refl)))))

  -- Where the limit of a batch is at least one, the digests of the merges each name one program
  -- source, and the server takes the operations of a request one after the other, each with the
  -- program that the request declares for it, reports each by its place and in a way that the
  -- client accepts, and returns the document with every operation that it applies and that asks
  -- for it, the loop of `Write` returns no error, what the client makes of the report on every
  -- operation, in order, with the indexes of the whole call, and the world that the operations
  -- leave, each taken with its own program. The server need do so only for requests with the
  -- caller's completion mode, with at least one operation and at most as many as a batch may have,
  -- that declare a program for the digest of every merge, and no digest twice. Neither the limit
  -- of a batch nor that a batch sends a program once shows.
  pub write_batches-answers :
      (ops : List WriteOperation) (w : World)
      → 0 < to_count config.max_operations
      → All (Named sources) ops
      → write_batches lib fl net config mode ops w
        ≡ (answers outcome_of effect_of 0 ops w, none, effects effect_of ops w)
  unfolding write_batches
  write_batches-answers ops w positive named =
      run_batches-answers outcome_of effect_of shift_write (to_count config.max_operations)
        outcome-shift (write_batch lib fl net mode) positive (Named sources) served_batch ops w
        named
