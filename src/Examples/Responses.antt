-- ===== src/Examples/Responses.antt =====
-- results.go on responses whose results stand in another order than the operations.
use sink_go.Base.{ℕ, ◌≡◌, refl, false, Option, none, some, List, [], ◌∷◌, map, arith, codes, ok}
use sink_go.Errors.{OperationError}
use sink_go.Examples.Stub.{libraries}
use sink_go.Proto as Proto
use sink_go.Proto.Enums.{ReadStatus, WriteStatus, DeleteStatus, FailureCode}
use sink_go.Results.{
  operation_failure, read_status_result, read_result, write_document, write_failure, write_result,
  delete_failure, delete_result, decode_items, decode_read_response, decode_write_response,
  decode_delete_response,
}
use sink_go.Results.Decoded.{
  Answers, ReadAnswer, WriteAnswer, DeleteAnswer, decode_read_response_sound,
  decode_write_response_sound, decode_delete_response_sound, decode_read_response_accepts,
}
use sink_go.Results.Loop.{decode_loop, validate_result_index}
use sink_go.Types.Outcomes.{
  ReadResult, WriteResult, DeleteResult, zero_read_result, zero_write_result, revision_from_proto,
}

abbrev failure : Proto.Failure
failure = record { code = FailureCode.internal; message = codes "disk"; retryable = false }

abbrev reported : ℕ → OperationError
reported index = record {
  operation_index = index;
  code = FailureCode.internal;
  message = codes "disk";
  retryable = false;
}

abbrev failed_read : Proto.ReadResult
failed_read = record {
  operation_index = 1;
  status = ReadStatus.failed;
  document = none;
  revision = none;
  failure = some failure;
}

abbrev missing_read : Proto.ReadResult
missing_read = record {
  operation_index = 0;
  status = ReadStatus.not_found;
  document = none;
  revision = none;
  failure = none;
}

abbrev reads : List Proto.ReadResult
reads = failed_read ∷ missing_read ∷ []

abbrev read_results : List ReadResult
read_results =
    record zero_read_result { operation_index = 0; status = ReadStatus.not_found }
    ∷ record zero_read_result {
      operation_index = 1;
      status = ReadStatus.failed;
      failure = some (reported 1);
    }
    ∷ []

abbrev writes : List (Option Proto.WriteResult)
writes =
    some (record {
      operation_index = 1;
      status = WriteStatus.failed;
      revision = none;
      failure = some failure;
      document = none;
    })
    ∷ some (record {
      operation_index = 0;
      status = WriteStatus.applied;
      revision = none;
      failure = none;
      document = none;
    })
    ∷ []

abbrev write_results : List WriteResult
write_results =
    record zero_write_result { operation_index = 0; status = WriteStatus.applied }
    ∷ record zero_write_result {
      operation_index = 1;
      status = WriteStatus.failed;
      failure = some (reported 1);
    }
    ∷ []

abbrev deletes : List (Option Proto.DeleteResult)
deletes =
    some (record { operation_index = 1; status = DeleteStatus.failed; failure = some failure })
    ∷ some (record { operation_index = 0; status = DeleteStatus.accepted; failure = none })
    ∷ []

abbrev delete_results : List DeleteResult
delete_results =
    record { operation_index = 0; status = DeleteStatus.accepted; failure = none }
    ∷ record { operation_index = 1; status = DeleteStatus.failed; failure = some (reported 1) }
    ∷ []

decode-reads :
    decode_read_response libraries (some (record { results = map some reads })) 2 ≡ ok read_results
unfolding decode_read_response decode_items decode_loop validate_result_index read_result
    read_status_result operation_failure revision_from_proto
decode-reads = refl

decode-writes :
    decode_write_response libraries (some (record { results = writes })) 2 ≡ ok write_results
unfolding decode_write_response decode_items decode_loop validate_result_index write_result
    write_document write_failure operation_failure revision_from_proto
decode-writes = refl

decode-deletes :
    decode_delete_response libraries (some (record { results = deletes })) 2 ≡ ok delete_results
unfolding decode_delete_response decode_items decode_loop validate_result_index delete_result
    delete_failure operation_failure
decode-deletes = refl

decode_read_response_sound_example : Answers (ReadAnswer (map some reads)) 2 read_results
decode_read_response_sound_example =
    decode_read_response_sound libraries (map some reads) 2 decode-reads

decode_write_response_sound_example : Answers (WriteAnswer writes) 2 write_results
decode_write_response_sound_example = decode_write_response_sound libraries writes 2 decode-writes

decode_delete_response_sound_example : Answers (DeleteAnswer deletes) 2 delete_results
decode_delete_response_sound_example =
    decode_delete_response_sound libraries deletes 2 decode-deletes

decode_read_response_accepts_example :
    (out : List ReadResult) × (decode_read_response libraries
        (some (record { results = map some reads }))
        2
      ≡ ok out)
unfolding read_result read_status_result operation_failure
decode_read_response_accepts_example =
    decode_read_response_accepts libraries reads ((omega arith, tt), (tt, tt))
      (
        (
          omega arith,
          (
            record zero_read_result {
              operation_index = 1;
              status = ReadStatus.failed;
              failure = some (reported 1);
            },
            refl,
          ),
        ),
        (
          (
            omega arith,
            (record zero_read_result { operation_index = 0; status = ReadStatus.not_found }, refl),
          ),
          tt,
        ),
      )
