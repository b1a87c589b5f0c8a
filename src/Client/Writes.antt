-- ===== src/Client/Writes.antt =====
-- client.go: `Write`.
pub mod Declared
pub mod Delivery
pub mod Programs
pub mod Refines
use sink_go.Base.{
  ℕ, zero, suc, ◌+◌, Bool, true, false, not, ◌&&◌, ◌||◌, Option, none, some, List, [], ◌∷◌, ◌++◌,
  map, length, is_empty, take, drop, Bytes, bytes_eq, String, Result, ok, err, ◌>>=◌, ◌>>◌, fail_if,
  wrap_err, if◌then◌else◌,
}
use sink_go.Client.BatchLoop.{run_batches}
use sink_go.Client.Config.{
  Client, ClientConfig, validate_collection, valid_completion_mode, to_count,
}
use sink_go.Errors.{Error, new, wrap, wrap_index, protocol, Status}
use sink_go.Errors
use sink_go.Floats.{Floats}
use sink_go.Libraries.{Libraries}
use sink_go.Network.{Network}
use sink_go.Proto as Proto
use sink_go.Proto.Enums.{CompletionMode, is_applied, is_return_after_accepted}
use sink_go.Results.{decode_write_response}
use sink_go.Types.Operations.{WriteOperation, WriteAction, operation_to_proto, validate_operation}
use sink_go.Types.Outcomes.{shift_failure, WriteResult}
use sink_go.Types.Programs.{LuaProgram}

abbrev pub merges : WriteAction → Bool
merges WriteAction.merge = true
merges _ = false

unfoldable pub contains : List Bytes → Bytes → Bool
contains [] digest = false
contains (d ∷ ds) digest = bytes_eq d digest || contains ds digest

-- The programs that a batch carries: each digest once, at its first merge. `seen` holds the digests.
unfoldable pub lua_programs : List Bytes → List WriteOperation → List Proto.LuaProgram
unfolding contains
lua_programs seen [] = []
lua_programs seen (o ∷ operations) =
    let p = o.merge.program in
    let fresh = merges o.action && not (contains seen p.sha256) in
    let rest = lua_programs (if fresh then p.sha256 ∷ seen else seen) operations in
    if fresh then record { source = p.source; sha256 = p.sha256 } ∷ rest else rest

unfoldable pub write_request : CompletionMode → List WriteOperation → Proto.WriteRequest
write_request mode operations = record {
  completion_mode = mode;
  operations = map operation_to_proto operations;
  lua_programs = lua_programs [] operations;
}

-- The loop behind the decoding: an applied operation returns the document that it was asked for.
unfoldable pub check_documents : List WriteOperation → List WriteResult → Result Error (Unit {0})
check_documents (o ∷ operations) (r ∷ results) = do
  fail_if (o.return_document && is_applied r.status && is_empty r.document.payload)
      (protocol "Write" (new "applied operation omitted the requested document"))
  check_documents operations results
check_documents _ _ = ok tt

-- `remapWriteIndexes` on one result.
abbrev pub shift_write : ℕ → WriteResult → WriteResult
shift_write offset r = record r {
  operation_index = r.operation_index + offset;
  failure = shift_failure offset r.failure;
}

module _ (lib : Libraries) (fl : Floats) (net : Network fl) where
  open net use {World, write}

  -- The validation loop of `Write`.
  unfoldable pub validate_writes :
      CompletionMode → ℕ → List WriteOperation → Result Error (Unit {0})
  validate_writes mode index [] = ok tt
  validate_writes mode index (o ∷ operations) = do
    fail_if (o.return_document && is_return_after_accepted mode)
        (new "returned write documents require synchronous completion")
    wrap_err (wrap_index "write operation %d: %w" index) (validate_operation lib o)
    validate_writes mode (suc index) operations

  -- What `writeBatch` makes of the reply.
  unfoldable pub write_reply :
      List WriteOperation
      → Result Status (Option Proto.WriteResponse)
      → Result Error (List WriteResult)
  write_reply operations (err st) = err (wrap "write records: %w" (Errors.status st))
  write_reply operations (ok response) = do
    results ← decode_write_response lib response (length operations)
    check_documents operations results
    ok results

  unfoldable pub write_batch :
      CompletionMode → List WriteOperation → World → Result Error (List WriteResult) × World
  write_batch mode operations w =
      let (reply, w') = write (write_request mode operations) w in
      (write_reply operations reply, w')

  unfoldable pub write_batches :
      ClientConfig fl
      → CompletionMode
      → List WriteOperation
      → World
      → List WriteResult × Option Error × World
  write_batches config mode operations =
      run_batches (write_batch mode) shift_write (to_count config.max_operations)
        (length operations) 0 operations []

  pub write_checked :
      Option (Client fl) → CompletionMode → List WriteOperation → Result Error (Client fl)
  write_checked client mode operations = do
    c ← validate_collection client "write" (length operations)
    fail_if (not (valid_completion_mode mode)) (new "write request has an invalid completion mode")
    validate_writes mode 0 operations
    ok c

  write_submitted :
      CompletionMode
      → List WriteOperation
      → World
      → Result Error (Client fl)
      → List WriteResult × Option Error × World
  write_submitted mode operations w (err e) = ([], some e, w)
  write_submitted mode operations w (ok c) = write_batches c.config mode operations w

  -- `Client.Write`
  unfoldable pub write_records :
      Option (Client fl)
      → CompletionMode
      → List WriteOperation
      → World
      → List WriteResult × Option Error × World
  unfolding write_checked write_submitted
  write_records client mode operations w =
      write_submitted mode operations w (write_checked client mode operations)
