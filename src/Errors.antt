-- ===== src/Errors.antt =====
-- Errors of package sink as values: `errors.New`, `fmt.Errorf` with its format and arguments, and
-- the error types of types.go and native.go. A text is kept as the source spells it.
use sink_go.Base.{ℕ, Bool, false, ◌&&◌, String, List, [], ◌∷◌, Bytes, codes, bytes_eq, ◌==◌, ◌||◌}
use sink_go.Uri.Address.{UriError}
use sink_go.Proto.Enums.{FailureCode}

pub record OperationError : Type 0 where
  pub operation_index : ℕ
  pub code : FailureCode
  pub message : Bytes
  pub retryable : Bool

-- A detail of a gRPC status: an ErrorInfo or another message.
pub data Detail : Type 0 where
  error_info : (domain reason : Bytes) → Detail
  other : Detail

-- What gRPC's stubs return as an error.
pub record Status : Type 0 where
  pub code : ℕ
  pub details : List Detail

pub record ExecuteResponse : Type 0 where
  pub content_type : Bytes
  pub payload : Bytes
  pub success : Bool
  pub status_code : ℕ
  pub headers : List (Bytes × List Bytes)

pub data Error : Type 0 where
  new : String → Error
  new_index : String → ℕ → Error
  new_counts : String → ℕ → ℕ → Error
  new_name : String → String → Error
  wrap : String → Error → Error
  wrap_index : String → ℕ → Error → Error
  wrap_name : String → String → Error → Error
  wrap_name_index : String → String → ℕ → Error → Error
  join : Error → Error → Error
  uri : UriError → Error
  protocol : (method : String) → (message : Error) → Error
  operation : OperationError → Error
  batch : List OperationError → Error
  status : Status → Error
  native : ExecuteResponse → Error
  -- `ctx.Err()`: the context was cancelled or its deadline passed.
  context : Error
  -- An error of a library, by its text.
  library : Bytes → Error

abbrev pub unavailable : ℕ
unavailable = 14

abbrev pub resource_exhausted : ℕ
resource_exhausted = 8

is_scan_rejection : Detail → Bool
is_scan_rejection (error_info domain reason) =
    bytes_eq domain (codes "sink") && bytes_eq reason (codes "SCAN_ADMISSION_REJECTED")
is_scan_rejection other = false

any_scan_rejection : List Detail → Bool
any_scan_rejection [] = false
any_scan_rejection (d ∷ ds) = is_scan_rejection d || any_scan_rejection ds

-- `retryableScanAdmission` of native.go.
unfoldable pub retryable_scan_admission : Status → Bool
unfolding any_scan_rejection is_scan_rejection
retryable_scan_admission failure =
    failure.code == resource_exhausted && any_scan_rejection failure.details
