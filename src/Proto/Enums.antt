-- ===== src/Proto/Enums.antt =====
-- The enums of api/sink/v1/sink.pb.go, which types.go renames.
use sink_go.Base.{Bool, true, false, ℤ}

pub data DocumentEncoding : Type 0 where
  unspecified json bson : DocumentEncoding
  other : ℤ → DocumentEncoding

pub data CompletionMode : Type 0 where
  unspecified wait_until_applied return_after_accepted wait_until_visible : CompletionMode
  other : ℤ → CompletionMode

pub data ReadStatus : Type 0 where
  unspecified found not_found failed : ReadStatus
  other : ℤ → ReadStatus

pub data WriteMode : Type 0 where
  unspecified create replace upsert : WriteMode
  other : ℤ → WriteMode

pub data WriteStatus : Type 0 where
  unspecified accepted applied precondition_failed failed : WriteStatus
  other : ℤ → WriteStatus

pub data DeleteStatus : Type 0 where
  unspecified accepted applied failed : DeleteStatus
  other : ℤ → DeleteStatus

pub data FailureCode : Type 0 where
  unspecified invalid_argument precondition_failed not_found conflict : FailureCode
  resource_exhausted unavailable deadline_exceeded internal : FailureCode
  other : ℤ → FailureCode

abbrev pub is_unspecified : FailureCode → Bool
is_unspecified FailureCode.unspecified = true
is_unspecified _ = false

abbrev pub is_applied : WriteStatus → Bool
is_applied WriteStatus.applied = true
is_applied _ = false

-- `mode != WriteCreate && mode != WriteReplace && mode != WriteUpsert`
abbrev pub invalid_write_mode : WriteMode → Bool
invalid_write_mode WriteMode.create = false
invalid_write_mode WriteMode.replace = false
invalid_write_mode WriteMode.upsert = false
invalid_write_mode _ = true

abbrev pub is_return_after_accepted : CompletionMode → Bool
is_return_after_accepted CompletionMode.return_after_accepted = true
is_return_after_accepted _ = false
