-- ===== src/Types/Outcomes.antt =====
-- types.go: per-operation results and batch errors.
use sink_go.Base.{ℕ, ◌+◌, Option, none, some, List, [], ◌∷◌, Bytes}
use sink_go.Errors.{Error, batch, OperationError}
use sink_go.Proto as Proto
use sink_go.Proto.Enums.{ReadStatus, WriteStatus, DeleteStatus}
use sink_go.Types.Documents.{Document, zero_document}

-- `RevisionToken`: the bytes of its only field.
pub record RevisionToken : Type 0 where
  pub content : Bytes

pub record ReadResult : Type 0 where
  pub operation_index : ℕ
  pub status : ReadStatus
  pub document : Document
  pub revision : RevisionToken
  pub failure : Option OperationError

pub record WriteResult : Type 0 where
  pub operation_index : ℕ
  pub status : WriteStatus
  pub revision : RevisionToken
  pub failure : Option OperationError
  pub document : Document

pub record DeleteResult : Type 0 where
  pub operation_index : ℕ
  pub status : DeleteStatus
  pub failure : Option OperationError

abbrev pub zero_revision : RevisionToken
zero_revision = record { content = [] }

abbrev pub zero_read_result : ReadResult
zero_read_result = record {
  operation_index = 0;
  status = ReadStatus.unspecified;
  document = zero_document;
  revision = zero_revision;
  failure = none;
}

abbrev pub zero_write_result : WriteResult
zero_write_result = record {
  operation_index = 0;
  status = WriteStatus.unspecified;
  revision = zero_revision;
  failure = none;
  document = zero_document;
}

abbrev pub zero_delete_result : DeleteResult
zero_delete_result = record {
  operation_index = 0;
  status = DeleteStatus.unspecified;
  failure = none;
}

-- `revisionFromProto` of wire.go.
unfoldable pub revision_from_proto : Option Proto.RevisionToken → RevisionToken
revision_from_proto none = zero_revision
revision_from_proto (some r) = record { content = r.content }

-- The body of the loops `remapReadIndexes`, `remapWriteIndexes` and `remapDeleteIndexes` in
-- client.go: an index within a batch becomes an index within the whole collection.
abbrev pub shift_failure : ℕ → Option OperationError → Option OperationError
shift_failure offset none = none
shift_failure offset (some f) = some (record f { operation_index = f.operation_index + offset })

-- One round of the loops of `ReadResultsError`, `WriteResultsError` and `DeleteResultsError`.
abbrev pub add_failure : Option OperationError → List OperationError → List OperationError
add_failure none failures = failures
add_failure (some f) failures = f ∷ failures

-- The loops of `ReadResultsError`, `WriteResultsError` and `DeleteResultsError`.
unfoldable pub read_failures : List ReadResult → List OperationError
read_failures [] = []
read_failures (r ∷ rs) = add_failure r.failure (read_failures rs)

unfoldable pub write_failures : List WriteResult → List OperationError
write_failures [] = []
write_failures (r ∷ rs) = add_failure r.failure (write_failures rs)

unfoldable pub delete_failures : List DeleteResult → List OperationError
delete_failures [] = []
delete_failures (r ∷ rs) = add_failure r.failure (delete_failures rs)

-- `newBatchError`; `none` is a nil error.
unfoldable pub new_batch_error : List OperationError → Option Error
new_batch_error [] = none
new_batch_error (f ∷ fs) = some (batch (f ∷ fs))

unfoldable pub read_results_error : List ReadResult → Option Error
read_results_error results = new_batch_error (read_failures results)

unfoldable pub write_results_error : List WriteResult → Option Error
write_results_error results = new_batch_error (write_failures results)

unfoldable pub delete_results_error : List DeleteResult → Option Error
delete_results_error results = new_batch_error (delete_failures results)
