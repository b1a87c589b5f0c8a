-- ===== src/Examples/Errors.antt =====
-- types.go: the texts of the error types, and the errors of one failed result among others.
use sink_go.Base.{◌≡◌, refl, true, some, List, [], ◌∷◌, codes}
use sink_go.Errors.{OperationError}
use sink_go.Proto.Enums.{FailureCode, ReadStatus, DeleteStatus}
use sink_go.Types.Failures.{
  Collects, present, read_err, write_err, delete_err, failure_code_name, operation_error_text,
  batch_error_text, results_errors-Collects,
}
use sink_go.Base.{map}
use sink_go.Types.Outcomes.{
  ReadResult, DeleteResult, zero_read_result, read_results_error, write_results_error,
  delete_results_error,
}
use sink_go.Uri.Decimal.{digits, format_int}

abbrev failure : OperationError
failure = record {
  operation_index = 12;
  code = FailureCode.not_found;
  message = codes "gone";
  retryable = true;
}

operation_error_text-failure :
    operation_error_text (some failure)
    ≡ codes "sink operation 12 failed with FAILURE_CODE_NOT_FOUND: gone"
unfolding operation_error_text failure_code_name format_int digits
operation_error_text-failure = refl

batch_error_text-failure :
    batch_error_text (some (failure ∷ [])) ≡ codes "sink batch contains 1 failed operations"
unfolding batch_error_text format_int digits
batch_error_text-failure = refl

abbrev reads : List ReadResult
reads =
    record zero_read_result { status = ReadStatus.not_found }
    ∷ record zero_read_result { status = ReadStatus.failed; failure = some failure }
    ∷ []

abbrev deletes : List DeleteResult
deletes = record { operation_index = 0; status = DeleteStatus.failed; failure = some failure } ∷ []

results_errors-Collects_example :
    Collects (read_results_error reads) (present (map read_err reads))
    × Collects (write_results_error []) (present (map write_err []))
    × Collects (delete_results_error deletes) (present (map delete_err deletes))
results_errors-Collects_example = results_errors-Collects reads [] deletes
