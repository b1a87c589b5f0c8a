-- ===== src/Examples/Served.antt =====
-- client.go: `Write` against a server that knows the completion modes and the programs.
use sink_go.Base.{
  ℕ, Bool, ◌≡◌, refl, true, false, Option, none, some, List, [], ◌∷◌, ◌++◌, map, arith, ◌&&◌, ok,
  codes, is_empty, All,
}
use sink_go.Client.BatchLoop.Refines.{answers, effects}
use sink_go.Client.Writes.{write_batches}
use sink_go.Client.Writes.Programs.{Named}
use sink_go.Client.Writes.Refines.{Job, job, jobs, Serves, write_batches-answers}
use sink_go.Examples.Stub.{
  libraries, tenths, network, Server, fresh, config, page_document, address,
}
use sink_go.Network.{Network}
use sink_go.Proto as Proto
use sink_go.Proto.Enums.{
  CompletionMode, DocumentEncoding, WriteMode, WriteStatus, FailureCode, is_applied,
}
use sink_go.Results.{write_result, write_document, write_failure, operation_failure}
use sink_go.Types.Documents.{
  Document, document_from_proto, new_raw_document, validate_document, validate_payload,
  zero_document,
}
use sink_go.Types.Operations.{WriteOperation, put_operation, merge_operation, operation_to_proto}
use sink_go.Types.Keys.{Address}
use sink_go.Types.Outcomes.{WriteResult, revision_from_proto}

-- What the server does with an operation.
data Verdict : Type 0 where
  queued refused stored : Verdict

-- Without waiting, an operation is queued; otherwise it is stored, unless it is a merge for which
-- the request declares no program.
abbrev tried : Option Proto.LuaProgram → Option Proto.Action → Verdict
tried none (some (Proto.Action.merge m)) = Verdict.refused
tried p a = Verdict.stored

abbrev verdict : CompletionMode → Job → Verdict
verdict CompletionMode.return_after_accepted j = Verdict.queued
verdict mode (p, o) = tried p o.action

abbrev reported : Verdict → Proto.WriteResult
reported Verdict.queued = record {
  operation_index = 0;
  status = WriteStatus.accepted;
  revision = none;
  failure = none;
  document = none;
}
reported Verdict.refused = record {
  operation_index = 0;
  status = WriteStatus.failed;
  revision = none;
  failure = some (record {
    code = FailureCode.invalid_argument;
    message = codes "no program";
    retryable = false;
  });
  document = none;
}
reported Verdict.stored = record {
  operation_index = 0;
  status = WriteStatus.applied;
  revision = none;
  failure = none;
  document = some page_document;
}

abbrev document : Document
document = record { encoding = DocumentEncoding.bson; payload = 5 ∷ 0 ∷ 0 ∷ 0 ∷ 0 ∷ [] }

abbrev told : Verdict → ℕ → WriteResult
told Verdict.queued i = record {
  operation_index = i;
  status = WriteStatus.accepted;
  revision = record { content = [] };
  failure = none;
  document = zero_document;
}
told Verdict.refused i = record {
  operation_index = i;
  status = WriteStatus.failed;
  revision = record { content = [] };
  failure = some (record {
    operation_index = i;
    code = FailureCode.invalid_argument;
    message = codes "no program";
    retryable = false;
  });
  document = zero_document;
}
told Verdict.stored i = record {
  operation_index = i;
  status = WriteStatus.applied;
  revision = record { content = [] };
  failure = none;
  document = document;
}

abbrev log_job : Verdict → Proto.WriteOperation → Server → Server
log_job Verdict.refused o w = w
log_job _ o w = record w { writes = w.writes ++ o ∷ [] }

abbrev apply : CompletionMode → Job → Server → Server
apply mode j = log_job (verdict mode j) j.1

abbrev report_of : CompletionMode → Job → Server → Proto.WriteResult
report_of mode j w = reported (verdict mode j)

-- It takes the operations of a request one after the other.
abbrev serving : Network tenths
serving = record network {
  write = λ request w. (
    ok (
        some (record {
          results = map some (
              answers
                (λ i j v. record (report_of request.completion_mode j v) { operation_index = i })
                (apply request.completion_mode) 0 (jobs request) w);
        })),
    effects (apply request.completion_mode) (jobs request) w,
  );
}

reported-told : (v : Verdict) (i : ℕ) → write_result libraries i (reported v) ≡ ok (told v i)
unfolding write_result write_document write_failure document_from_proto new_raw_document
    validate_document validate_payload revision_from_proto operation_failure
reported-told Verdict.queued i = refl
reported-told Verdict.refused i = refl
reported-told Verdict.stored i = refl

told-documented :
    (asked : Bool) (v : Verdict) (i : ℕ)
    → (asked && is_applied (told v i).status && is_empty (told v i).document.payload) ≡ false
told-documented asked Verdict.queued i = ground arith
told-documented asked Verdict.refused i = ground arith
told-documented asked Verdict.stored i = ground arith

abbrev serving-Serves : Serves libraries tenths serving CompletionMode.wait_until_applied 2
serving-Serves = record {
  effect = apply CompletionMode.wait_until_applied;
  report = report_of CompletionMode.wait_until_applied;
  outcome = λ i j w. told (verdict CompletionMode.wait_until_applied j) i;
  well_formed = λ i j w. reported-told (verdict CompletionMode.wait_until_applied j) i;
  returns =
      λ i j w. told-documented j.1.return_document (verdict CompletionMode.wait_until_applied j) i;
  replies = λ request w declares. rw declares.by_mode refl;
}

-- Two merges with the same program and a put, which asks for its document, in batches of two.
abbrev merge_at : Address → WriteOperation
merge_at a = merge_operation a (record {
  incoming = document;
  program = record { source = codes "return"; sha256 = codes "return" };
})

abbrev operations : List WriteOperation
operations =
    merge_at (address (codes "a"))
    ∷ record (put_operation (address (codes "b")) document WriteMode.upsert) {
      return_document = true;
    }
    ∷ merge_at (address (codes "c"))
    ∷ []

-- The programs are their own digests here, as in the stub.
named : All (Named (λ d. d)) operations
named = (λ m. refl, (λ m. refl, (λ m. refl, tt)))

write_batches-answers_example :
    write_batches libraries tenths serving config CompletionMode.wait_until_applied operations fresh
    ≡ (
      answers
          (λ i o w. told (verdict CompletionMode.wait_until_applied (job o)) i)
          (λ o w. apply CompletionMode.wait_until_applied (job o) w)
          0
          operations
          fresh,
      none,
      effects (λ o w. apply CompletionMode.wait_until_applied (job o) w) operations fresh,
    )
write_batches-answers_example =
    write_batches-answers libraries tenths serving CompletionMode.wait_until_applied config
      serving-Serves (λ d. d) operations fresh (omega arith) named

-- The three are stored.
all_stored :
    map
      (λ (r : WriteResult). is_applied r.status)
      (answers
        (λ i o w. told (verdict CompletionMode.wait_until_applied (job o)) i)
        (λ o w. apply CompletionMode.wait_until_applied (job o) w)
        0
        operations
        fresh)
    ≡ true ∷ true ∷ true ∷ []
unfolding operation_to_proto
all_stored = refl
