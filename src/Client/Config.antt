-- ===== src/Client/Config.antt =====
-- client.go: `newClientConfig`, `New` and the checks in front of every call.
pub mod Usable
use sink_go.Base.{
  ℕ, zero, suc, Bool, true, false, ◌||◌, Option, none, some, ℤ, pos, negsuc, String, Result, ok,
  err, ◌>>=◌, ◌>>◌, fail_if, wrap_err, ◌==◌,
}
use sink_go.Client.Backoff.{RetryPolicy, normalize_retry_policy, is_negative, default}
use sink_go.Errors.{Error, new, new_name, wrap}
use sink_go.Floats.{Floats}
use sink_go.Proto.Enums.{CompletionMode}

-- 64 MiB, and 30 seconds in nanoseconds.
abbrev pub default_max_message_bytes : ℤ
default_max_message_bytes = pos 67108864

abbrev pub default_scan_timeout : ℤ
default_scan_timeout = pos 30000000000

abbrev pub default_max_operations : ℤ
default_max_operations = pos 1000

pub record ClientOptions (fl : Floats) : Type 0 where
  pub max_operations : ℤ
  pub read_retry : RetryPolicy fl
  pub scan_retry : RetryPolicy fl
  pub scan_timeout : ℤ
  pub max_receive_message_bytes : ℤ
  pub max_send_message_bytes : ℤ

-- `clientConfig`, with the message limits that its call options carry.
pub record ClientConfig (fl : Floats) : Type 0 where
  pub max_operations : ℤ
  pub read_retry : RetryPolicy fl
  pub scan_retry : RetryPolicy fl
  pub scan_timeout : ℤ
  pub max_receive_bytes : ℤ
  pub max_send_bytes : ℤ

-- A client with a stub. `none` in its place is a nil client, or one without a stub.
pub record Client (fl : Floats) : Type 0 where
  pub config : ClientConfig fl
  -- Was the connection created by `Dial`?
  pub owns_connection : Bool

-- The count of an `int` that is not negative, for a loop's bound.
abbrev pub to_count : ℤ → ℕ
to_count (pos n) = n
to_count (negsuc n) = 0

module _ {fl : Floats} where
  unfoldable pub new_client_config : ClientOptions fl → Result Error (ClientConfig fl)
  new_client_config opts = do
    fail_if
        (is_negative opts.max_operations
          || is_negative opts.max_receive_message_bytes
          || is_negative opts.max_send_message_bytes
          || is_negative opts.scan_timeout)
        (new "create Sink client: limits cannot be negative")
    retry ←
        wrap_err (wrap "create Sink client: read retry: %w")
          (normalize_retry_policy fl opts.read_retry)
    scan_retry ←
        wrap_err (wrap "create Sink client: scan retry: %w")
          (normalize_retry_policy fl opts.scan_retry)
    ok (record {
      max_operations = default opts.max_operations default_max_operations;
      read_retry = retry;
      scan_retry = scan_retry;
      scan_timeout = default opts.scan_timeout default_scan_timeout;
      max_receive_bytes = default opts.max_receive_message_bytes default_max_message_bytes;
      max_send_bytes = default opts.max_send_message_bytes default_max_message_bytes;
    })

  -- `New`; `connected` tells that the connection is not nil.
  unfoldable pub new_client : Bool → ClientOptions fl → Result Error (Client fl)
  new_client false opts = err (new "create Sink client: connection is required")
  new_client true opts = do
    config ← new_client_config opts
    ok (record { config = config; owns_connection = false })

  unfoldable pub validate_collection : Option (Client fl) → String → ℕ → Result Error (Client fl)
  validate_collection none method count = err (new_name "%s records: client is nil" method)
  validate_collection (some c) method count = do
    fail_if (count == 0) (new_name "%s request must contain operations" method)
    ok c

unfoldable pub valid_completion_mode : CompletionMode → Bool
valid_completion_mode CompletionMode.wait_until_applied = true
valid_completion_mode CompletionMode.return_after_accepted = true
valid_completion_mode CompletionMode.wait_until_visible = true
valid_completion_mode _ = false
