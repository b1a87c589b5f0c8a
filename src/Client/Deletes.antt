-- ===== src/Client/Deletes.antt =====
-- client.go: `Delete`.
pub mod Delivery
use sink_go.Base.{
  ℕ, zero, suc, ◌+◌, Bool, not, Option, none, some, List, [], ◌∷◌, ◌++◌, length, take, drop, Result,
  ok, err, ◌>>=◌, ◌>>◌, fail_if, wrap_err,
}
use sink_go.Client.BatchLoop.{run_batches}
use sink_go.Client.Config.{
  Client, ClientConfig, validate_collection, valid_completion_mode, to_count,
}
use sink_go.Errors.{Error, new, wrap, wrap_index, Status}
use sink_go.Errors
use sink_go.Floats.{Floats}
use sink_go.Libraries.{Libraries}
use sink_go.Network.{Network}
use sink_go.Proto as Proto
use sink_go.Proto.Enums.{CompletionMode}
use sink_go.Results.{decode_delete_response}
use sink_go.Types.Keys.{Address, validate_address}
use sink_go.Types.Operations.{address_to_proto}
use sink_go.Types.Outcomes.{shift_failure, DeleteResult}

-- `remapDeleteIndexes` on one result.
abbrev pub shift_delete : ℕ → DeleteResult → DeleteResult
shift_delete offset r = record r {
  operation_index = r.operation_index + offset;
  failure = shift_failure offset r.failure;
}

-- The validation loop of `Delete`.
unfoldable pub delete_requests : ℕ → List Address → Result Error (List Proto.DeleteOperation)
delete_requests index [] = ok []
delete_requests index (a ∷ addresses) = do
  wrap_err (wrap_index "delete operation %d: %w" index) (validate_address a)
  rest ← delete_requests (suc index) addresses
  ok (record { address = address_to_proto a } ∷ rest)

module _ (lib : Libraries) (fl : Floats) (net : Network fl) where
  open net use {World, delete}

  delete_reply : ℕ → Result Status (Option Proto.DeleteResponse) → Result Error (List DeleteResult)
  delete_reply count (err st) = err (wrap "delete records: %w" (Errors.status st))
  delete_reply count (ok response) = decode_delete_response lib response count

  -- One round of the loop over the batches.
  unfoldable pub delete_batch :
      CompletionMode → List Proto.DeleteOperation → World → Result Error (List DeleteResult) × World
  unfolding delete_reply
  delete_batch mode operations w =
      let (reply, w') = delete (record { completion_mode = mode; operations = operations }) w in
      (delete_reply (length operations) reply, w')

  unfoldable pub delete_batches :
      ClientConfig fl
      → CompletionMode
      → List Proto.DeleteOperation
      → World
      → List DeleteResult × Option Error × World
  delete_batches config mode operations =
      run_batches (delete_batch mode) shift_delete (to_count config.max_operations)
        (length operations) 0 operations []

  delete_checked :
      Option (Client fl)
      → CompletionMode
      → List Address
      → Result Error (Client fl × List Proto.DeleteOperation)
  delete_checked client mode addresses = do
    c ← validate_collection client "delete" (length addresses)
    fail_if (not (valid_completion_mode mode)) (new "delete request has an invalid completion mode")
    operations ← delete_requests 0 addresses
    ok (c, operations)

  delete_submitted :
      CompletionMode
      → World
      → Result Error (Client fl × List Proto.DeleteOperation)
      → List DeleteResult × Option Error × World
  delete_submitted mode w (err e) = ([], some e, w)
  delete_submitted mode w (ok (c, operations)) = delete_batches c.config mode operations w

  -- `Client.Delete`
  unfoldable pub delete_records :
      Option (Client fl)
      → CompletionMode
      → List Address
      → World
      → List DeleteResult × Option Error × World
  unfolding delete_checked delete_submitted
  delete_records client mode addresses w =
      delete_submitted mode w (delete_checked client mode addresses)
