-- ===== src/Types/Failures.antt =====
-- types.go and native.go: the error types, their texts, and the errors of the results.
use sink_go.Base.{
  ◌≡◌, ◌↔◌, refl, ap, sym, subst, ◌∙◌, ◌==◌, Option, none, some, List, [], ◌∷◌, ◌++◌, map, length,
  Bytes, codes, pos, if◌then◌else◌,
}
use sink_go.Errors.{Error, OperationError, ExecuteResponse, operation, batch}
use sink_go.Proto.Enums.{FailureCode}
use sink_go.Types.Outcomes.{
  ReadResult, WriteResult, DeleteResult, add_failure, read_failures, write_failures,
  delete_failures, new_batch_error, read_results_error, write_results_error, delete_results_error,
}
use sink_go.Uri.Decimal.{format_int}

-- An error value for an operation's failure; a nil failure is a nil error.
abbrev pub failure_err : Option OperationError → Option Error
failure_err none = none
failure_err (some f) = some (operation f)

-- The methods `Err` of the three results.
abbrev pub read_err : ReadResult → Option Error
read_err r = failure_err r.failure

abbrev pub write_err : WriteResult → Option Error
write_err r = failure_err r.failure

abbrev pub delete_err : DeleteResult → Option Error
delete_err r = failure_err r.failure

-- `BatchError.Unwrap`, with `none` for a nil error.
unfoldable pub unwrap : Option (List OperationError) → List Error
unwrap none = []
unwrap (some failures) = map operation failures

-- `FailureCode_name`; a code without a name is printed as its number.
unfoldable pub failure_code_name : FailureCode → Bytes
failure_code_name FailureCode.unspecified = codes "FAILURE_CODE_UNSPECIFIED"
failure_code_name FailureCode.invalid_argument = codes "FAILURE_CODE_INVALID_ARGUMENT"
failure_code_name FailureCode.precondition_failed = codes "FAILURE_CODE_PRECONDITION_FAILED"
failure_code_name FailureCode.not_found = codes "FAILURE_CODE_NOT_FOUND"
failure_code_name FailureCode.conflict = codes "FAILURE_CODE_CONFLICT"
failure_code_name FailureCode.resource_exhausted = codes "FAILURE_CODE_RESOURCE_EXHAUSTED"
failure_code_name FailureCode.unavailable = codes "FAILURE_CODE_UNAVAILABLE"
failure_code_name FailureCode.deadline_exceeded = codes "FAILURE_CODE_DEADLINE_EXCEEDED"
failure_code_name FailureCode.internal = codes "FAILURE_CODE_INTERNAL"
failure_code_name (FailureCode.other n) = format_int n

-- `OperationError.Error`, with `none` for a nil error.
unfoldable pub operation_error_text : Option OperationError → Bytes
operation_error_text none = []
operation_error_text (some e) =
    codes "sink operation "
    ++ format_int (pos e.operation_index)
    ++ codes " failed with "
    ++ failure_code_name e.code
    ++ codes ": "
    ++ e.message

-- `BatchError.Error`
unfoldable pub batch_error_text : Option (List OperationError) → Bytes
batch_error_text none = []
batch_error_text (some []) = []
batch_error_text (some (f ∷ failures)) =
    codes "sink batch contains "
    ++ format_int (pos (length (f ∷ failures)))
    ++ codes " failed operations"

-- `ProtocolError`
pub record ProtocolError : Type 0 where
  pub method : Bytes
  pub message : Bytes

-- `ProtocolError.Error`
unfoldable pub protocol_error_text : Option ProtocolError → Bytes
protocol_error_text none = []
protocol_error_text (some e) =
    codes "sink " ++ e.method ++ codes " response is invalid: " ++ e.message

-- `NativeError.Error`
unfoldable pub native_error_text : ExecuteResponse → Bytes
native_error_text response =
    if response.status_code == 0
    then codes "native database command failed; inspect its native response"
    else codes "native database command returned HTTP " ++ format_int (pos response.status_code)

-- The errors that are there, in order.
abbrev pub present {ℓ} : {A : Type ℓ} → List (Option A) → List A
present [] = []
present (none ∷ items) = present items
present (some x ∷ items) = x ∷ present items

-- The failures behind an error.
abbrev pub failures_of : Option Error → Option (List OperationError)
failures_of (some (batch failures)) = some failures
failures_of _ = none

-- An error that unwraps to `errors`, and that is there only if one of them is.
abbrev pub Collects : Option Error → List Error → Type 0
Collects e errors = (unwrap (failures_of e) ≡ errors) × ((e ≡ none) ↔ (errors ≡ []))

new_batch_error-Collects :
    (failures : List OperationError) → Collects (new_batch_error failures) (map operation failures)
unfolding new_batch_error unwrap
new_batch_error-Collects [] = (refl, (λ e. refl, λ e. refl))
new_batch_error-Collects (f ∷ failures) = (refl, (λ e. cc, λ e. cc))

add_failure-present :
    (o : Option OperationError) (failures : List OperationError) (errs : List (Option Error))
    → map operation failures ≡ present errs
    → map operation (add_failure o failures) ≡ present (failure_err o ∷ errs)
add_failure-present none failures errs h = h
add_failure-present (some f) failures errs h = ap (λ l. operation f ∷ l) h

module _ {ℓ} {R : Type ℓ} (failure : R → Option OperationError) where
  collected : List R → List OperationError
  collected [] = []
  collected (r ∷ rs) = add_failure (failure r) (collected rs)

  collected-present :
      (rs : List R) → map operation (collected rs) ≡ present (map (λ r. failure_err (failure r)) rs)
  unfolding collected
  collected-present [] = refl
  collected-present (r ∷ rs) =
      add_failure-present (failure r) (collected rs) (map (λ x. failure_err (failure x)) rs)
        (collected-present rs)

  -- A loop that collects the failures, as the three do.
  collected-Collects :
      (failures_in : List R → List OperationError)
      → failures_in [] ≡ []
      → ((r : R) (rs : List R) → failures_in (r ∷ rs) ≡ add_failure (failure r) (failures_in rs))
      → (rs : List R)
      → Collects
          (new_batch_error (failures_in rs))
          (present (map (λ r. failure_err (failure r)) rs))
  unfolding collected
  collected-Collects failures_in base step rs =
      subst (λ l. Collects (new_batch_error l) (present (map (λ r. failure_err (failure r)) rs)))
        (sym (same rs))
        (subst (Collects (new_batch_error (collected rs))) (collected-present rs)
          (new_batch_error-Collects (collected rs)))
    where
      same : (rs : List R) → failures_in rs ≡ collected rs
      same [] = base
      same (r ∷ rs) = step r rs ∙ ap (add_failure (failure r)) (same rs)

-- The errors that `ReadResultsError`, `WriteResultsError` and `DeleteResultsError` unwrap to are
-- those that `Err` gives of the results, in order, and each of the three returns no error exactly
-- if no result has one.
pub results_errors-Collects :
    (reads : List ReadResult) (writes : List WriteResult) (deletes : List DeleteResult)
    → Collects (read_results_error reads) (present (map read_err reads))
      × Collects (write_results_error writes) (present (map write_err writes))
      × Collects (delete_results_error deletes) (present (map delete_err deletes))
unfolding read_results_error read_failures write_results_error write_failures delete_results_error
    delete_failures
results_errors-Collects reads writes deletes = (
  collected-Collects (λ (r : ReadResult). r.failure) read_failures refl (λ r rs. refl) reads,
  collected-Collects (λ (r : WriteResult). r.failure) write_failures refl (λ r rs. refl) writes,
  collected-Collects (λ (r : DeleteResult). r.failure) delete_failures refl (λ r rs. refl) deletes,
)
