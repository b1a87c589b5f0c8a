-- ===== src/Results.antt =====
-- results.go: the decoders of the read, write and delete responses.
pub mod Loop
pub mod Fits
pub mod Decoded
pub mod Shifts
use sink_go.Base.{
  ℕ, ◌≡◌, Bool, true, false, not, ◌&&◌, ◌||◌, Option, none, some, List, [], ◌∷◌, Bytes, is_empty,
  ltb, ◌==◌, length, replicate, Result, ok, err, ◌>>=◌, ◌>>◌, fail_if, wrap_err, String,
  if◌then◌else◌,
}
use sink_go.Errors.{Error, new, new_index, new_counts, wrap_index, protocol, OperationError}
use sink_go.Libraries.{Libraries}
use sink_go.Proto as Proto
use sink_go.Proto.Enums.{ReadStatus, WriteStatus, DeleteStatus, is_unspecified, is_applied}
use sink_go.Results.Loop.{decode_loop}
use sink_go.Types.Documents.{Document, zero_document, document_from_proto}
use sink_go.Types.Outcomes.{
  ReadResult, WriteResult, DeleteResult, RevisionToken, zero_revision, zero_read_result,
  zero_write_result, zero_delete_result, revision_from_proto,
}

unfoldable pub operation_failure : ℕ → Option Proto.Failure → Result Error OperationError
operation_failure index none = err (new_index "result %d is missing failure details" index)
operation_failure index (some failure) = do
  fail_if (is_unspecified failure.code)
      (new_index "result %d has an unspecified failure code" index)
  fail_if (is_empty failure.message) (new_index "result %d has an empty failure message" index)
  ok (record {
    operation_index = index;
    code = failure.code;
    message = failure.message;
    retryable = failure.retryable;
  })

abbrev read_method : String
read_method = "Read"

abbrev write_method : String
write_method = "Write"

abbrev delete_method : String
delete_method = "Delete"

module _ (lib : Libraries) where
  -- The switch in `decodeReadResponse`.
  unfoldable pub read_status_result : ReadStatus → ℕ → Proto.ReadResult → Result Error ReadResult
  read_status_result ReadStatus.found index r = do
    document ←
        wrap_err (λ e. protocol read_method (wrap_index "result %d: %v" index e))
          (document_from_proto lib r.document)
    ok (record {
      operation_index = index;
      status = ReadStatus.found;
      document = document;
      revision = revision_from_proto r.revision;
      failure = none;
    })
  read_status_result ReadStatus.not_found index r =
      ok (record zero_read_result { operation_index = index; status = ReadStatus.not_found })
  read_status_result ReadStatus.failed index r = do
    failure ← wrap_err (protocol read_method) (operation_failure index r.failure)
    ok (record zero_read_result {
      operation_index = index;
      status = ReadStatus.failed;
      failure = some failure;
    })
  read_status_result status index r =
      err (protocol read_method (new_index "result %d has unsupported status %s" index))

  unfoldable pub read_result : ℕ → Proto.ReadResult → Result Error ReadResult
  read_result index r = read_status_result r.status index r

  -- The document of a write result: only a committed write may have one.
  unfoldable pub write_document : Bool → Option Proto.Document → Result Error Document
  write_document committed none = ok zero_document
  write_document committed (some d) = do
    fail_if (not committed) (protocol write_method (new "uncommitted result contains a document"))
    wrap_err (protocol write_method) (document_from_proto lib (some d))

  unfoldable pub write_failure :
      WriteStatus → ℕ → Option Proto.Failure → Result Error (Option OperationError)
  write_failure WriteStatus.accepted index f = ok none
  write_failure WriteStatus.applied index f = ok none
  write_failure WriteStatus.precondition_failed index f = do
    failure ← wrap_err (protocol write_method) (operation_failure index f)
    ok (some failure)
  write_failure WriteStatus.failed index f = do
    failure ← wrap_err (protocol write_method) (operation_failure index f)
    ok (some failure)
  write_failure status index f =
      err (protocol write_method (new_index "result %d has unsupported status %s" index))

  unfoldable pub write_result : ℕ → Proto.WriteResult → Result Error WriteResult
  write_result index r = do
    document ← write_document (is_applied r.status) r.document
    failure ← write_failure r.status index r.failure
    ok (record {
      operation_index = index;
      status = r.status;
      revision = revision_from_proto r.revision;
      failure = failure;
      document = document;
    })

  unfoldable pub delete_failure :
      DeleteStatus → ℕ → Option Proto.Failure → Result Error (Option OperationError)
  delete_failure DeleteStatus.accepted index f = ok none
  delete_failure DeleteStatus.applied index f = ok none
  delete_failure DeleteStatus.failed index f = do
    failure ← wrap_err (protocol delete_method) (operation_failure index f)
    ok (some failure)
  delete_failure status index f =
      err (protocol delete_method (new_index "result %d has unsupported status %s" index))

  unfoldable pub delete_result : ℕ → Proto.DeleteResult → Result Error DeleteResult
  delete_result index r = do
    failure ← delete_failure r.status index r.failure
    ok (record { operation_index = index; status = r.status; failure = failure })

-- The tests and the initial slices in front of each loop.
unfoldable pub decode_items {ℓ κ} :
    {R : Type ℓ} {S : Type κ}
    → String
    → (R → ℕ)
    → (ℕ → R → Result Error S)
    → S
    → List (Option R)
    → ℕ
    → Result Error (List S)
decode_items method index_of convert zero_result items count = do
  fail_if (not (length items == count))
      (protocol method (new_counts "returned %d results for %d operations" (length items) count))
  decode_loop method index_of convert items (replicate count false) (replicate count zero_result)

unfoldable pub decode_read_response :
    Libraries → Option Proto.ReadResponse → ℕ → Result Error (List ReadResult)
decode_read_response lib none count = err (protocol read_method (new "response is empty"))
decode_read_response lib (some response) count =
    decode_items read_method (λ (r : Proto.ReadResult). r.operation_index) (read_result lib)
      zero_read_result response.results count

unfoldable pub decode_write_response :
    Libraries → Option Proto.WriteResponse → ℕ → Result Error (List WriteResult)
decode_write_response lib none count = err (protocol write_method (new "response is empty"))
decode_write_response lib (some response) count =
    decode_items write_method (λ (r : Proto.WriteResult). r.operation_index) (write_result lib)
      zero_write_result response.results count

unfoldable pub decode_delete_response :
    Libraries → Option Proto.DeleteResponse → ℕ → Result Error (List DeleteResult)
decode_delete_response lib none count = err (protocol delete_method (new "response is empty"))
decode_delete_response lib (some response) count =
    decode_items delete_method (λ (r : Proto.DeleteResult). r.operation_index) (delete_result lib)
      zero_delete_result response.results count
