-- ===== src/Dataset.antt =====
-- dataset.go: records of one resource, in one encoding.
pub mod Failures
pub mod Accepted
pub mod Native
pub mod Bound
use sink_go.Base.{
  ℕ, zero, suc, ◌≡◌, Bool, true, false, not, ◌&&◌, ◌||◌, Option, none, some, List, [], ◌∷◌, ◌++◌,
  Bytes, codes, bytes_eq, is_empty, String, Result, ok, err, ◌>>=◌, ◌>>◌, fail_if, wrap_err,
}
use sink_go.Client.Config.{Client}
use sink_go.Client.Reads.{read_records}
use sink_go.Client.Writes.{write_records}
use sink_go.Errors.{
  Error, new, new_name, wrap, wrap_index, wrap_name, wrap_name_index, ExecuteResponse,
}
use sink_go.Errors
use sink_go.Floats.{Floats}
use sink_go.Libraries.{Libraries}
use sink_go.Native.Commands.{Command, new_bson_command}
use sink_go.Native.Execute.{execute_native, empty_response}
use sink_go.Native.Query.{QueryRequest, QueryResponse, CountResponse, query_native, count_native}
use sink_go.Native.Scan.{ScanRequest, ScanResponse, scan_native}
use sink_go.Network.{Network}
use sink_go.Proto.Enums.{CompletionMode, DocumentEncoding, WriteMode}
use sink_go.Types.Documents.{Document, new_document}
use sink_go.Types.Keys.{Address, Key, new_record_address, from_uri}
use sink_go.Types.Operations.{WriteOperation, new_put, new_merge}
use sink_go.Types.Outcomes.{ReadResult, WriteResult, read_results_error, write_results_error}
use sink_go.Types.Programs.{LuaProgram, new_lua_program, validate_program}
use sink_go.Uri.Address.{parse}
use sink_go.Uri.Text.{trim_space}

pub record DatasetOptions : Type 0 where
  pub uri : Bytes
  pub encoding : DocumentEncoding
  pub merge_program : Option LuaProgram

-- `Record`
pub record DatasetRecord (lib : Libraries) : Type 0 where
  pub key : Key
  pub value : Libraries.Value lib
  pub return_document : Bool

-- A dataset with its client; `merge_program` is none where `hasMergeProgram` is false. `none` in its
-- place is a nil dataset, or one without a client.
pub record Dataset (fl : Floats) : Type 0 where
  pub client : Client fl
  pub uri : Bytes
  pub encoding : DocumentEncoding
  pub merge_program : Option LuaProgram

abbrev known_encoding : DocumentEncoding → Bool
known_encoding DocumentEncoding.json = true
known_encoding DocumentEncoding.bson = true
known_encoding _ = false

-- A call's own error joined with the one that its results carry.
unfoldable pub joined_error : (Error → Error) → Option Error → Option Error → Option Error
joined_error describe (some e) (some f) = some (describe (Errors.join e f))
joined_error describe (some e) none = some (describe e)
joined_error describe none (some f) = some (describe f)
joined_error describe none none = none

unfoldable pub joined {ℓ κ} :
    {A : Type ℓ} {W : Type κ}
    → (Error → Error)
    → (List A → Option Error)
    → List A × Option Error × W
    → List A × Option Error × W
joined describe failures (results, e, w) = (results, joined_error describe e (failures results), w)

module _ (lib : Libraries) where
  -- A dataset's own copy of the program.
  unfoldable pub copy_program : Option LuaProgram → Result Error (Option LuaProgram)
  copy_program none = ok none
  copy_program (some p) = do
    wrap_err (wrap "create dataset: %w") (validate_program lib p)
    program ←
        wrap_err (wrap "create dataset: copy merge program: %w") (new_lua_program lib p.source)
    ok (some program)

module _ (lib : Libraries) (fl : Floats) where
  unfoldable pub new_dataset : Option (Client fl) → DatasetOptions → Result Error (Dataset fl)
  new_dataset none opts = err (new "create dataset: client is required")
  new_dataset (some c) opts = do
    parsed ← wrap_err (wrap "create dataset: %w") (from_uri (parse opts.uri))
    fail_if (not (known_encoding opts.encoding))
        (new "create dataset: document encoding is required")
    program ← copy_program lib opts.merge_program
    ok (record { client = c; uri = opts.uri; encoding = opts.encoding; merge_program = program })

  -- `Dataset.validate`
  unfoldable pub validate_dataset : Option (Dataset fl) → String → Result Error (Dataset fl)
  validate_dataset none operation = err (new_name "dataset %s: client is required" operation)
  validate_dataset (some d) operation = ok d

  -- The loop over the keys in `Read`.
  unfoldable pub key_addresses : Bytes → ℕ → List Key → Result Error (List Address)
  key_addresses uri index [] = ok []
  key_addresses uri index (k ∷ keys) = do
    address ← wrap_err (wrap_index "dataset read key %d: %w" index) (new_record_address uri k)
    rest ← key_addresses uri (suc index) keys
    ok (address ∷ rest)

  unfoldable pub encode_record : Dataset fl → DatasetRecord lib → Result Error (Address × Document)
  encode_record d r = do
    address ← new_record_address d.uri r.key
    document ← new_document lib r.value d.encoding
    ok (address, document)

  -- One round of the loop in `put`, and one of the loop in `Merge`.
  unfoldable pub put_record :
      Dataset fl → WriteMode → DatasetRecord lib → Result Error WriteOperation
  put_record d mode r = do
    (address, document) ← encode_record d r
    operation ← new_put lib address document mode
    ok (record operation { return_document = r.return_document })

  unfoldable pub merge_record :
      Dataset fl → LuaProgram → DatasetRecord lib → Result Error WriteOperation
  merge_record d program r = do
    (address, document) ← encode_record d r
    operation ← new_merge lib address (record { incoming = document; program = program })
    ok (record operation { return_document = r.return_document })

  unfoldable pub record_operations :
      String
      → (DatasetRecord lib → Result Error WriteOperation)
      → ℕ
      → List (DatasetRecord lib)
      → Result Error (List WriteOperation)
  record_operations operation one index [] = ok []
  record_operations operation one index (r ∷ records) = do
    op ← wrap_err (wrap_name_index "dataset %s record %d: %w" operation index) (one r)
    rest ← record_operations operation one (suc index) records
    ok (op ∷ rest)

  unfoldable pub put_operations :
      Option (Dataset fl)
      → WriteMode
      → String
      → List (DatasetRecord lib)
      → Result Error (Dataset fl × List WriteOperation)
  put_operations dataset mode operation records = do
    d ← validate_dataset dataset operation
    operations ← record_operations operation (put_record d mode) 0 records
    ok (d, operations)

  abbrev pub required_program : Option LuaProgram → Result Error LuaProgram
  required_program none = err (new "dataset merge: merge program is not configured")
  required_program (some p) = ok p

  unfoldable pub merge_operations :
      Option (Dataset fl)
      → List (DatasetRecord lib)
      → Result Error (Dataset fl × List WriteOperation)
  merge_operations dataset records = do
    d ← validate_dataset dataset "merge"
    program ← required_program d.merge_program
    operations ← record_operations "merge" (merge_record d program) 0 records
    ok (d, operations)

module _ (lib : Libraries) (fl : Floats) (net : Network fl) where
  open net use {World}

  unfoldable pub read_addresses :
      Dataset fl → World → Result Error (List Address) → List ReadResult × Option Error × World
  read_addresses d w (err e) = ([], some e, w)
  read_addresses d w (ok addresses) =
      joined (wrap "dataset read: %w") read_results_error
        (read_records lib fl net (some d.client) addresses w)

  -- `Dataset.Read`
  unfoldable pub dataset_read :
      Option (Dataset fl) → List Key → World → List ReadResult × Option Error × World
  dataset_read none keys w = ([], some (new_name "dataset %s: client is required" "read"), w)
  dataset_read (some d) keys w = read_addresses d w (key_addresses lib fl d.uri 0 keys)

  -- `Dataset.write`
  unfoldable pub dataset_write :
      String
      → CompletionMode
      → World
      → Result Error (Dataset fl × List WriteOperation)
      → List WriteResult × Option Error × World
  dataset_write operation mode w (err e) = ([], some e, w)
  dataset_write operation mode w (ok (d, operations)) =
      joined (wrap_name "dataset %s: %w" operation) write_results_error
        (write_records lib fl net (some d.client) mode operations w)

  -- `Dataset.Create`
  unfoldable pub create :
      Option (Dataset fl)
      → CompletionMode
      → List (DatasetRecord lib)
      → World
      → List WriteResult × Option Error × World
  create dataset mode records w =
      dataset_write "create" mode w
        (put_operations lib fl dataset WriteMode.create "create" records)

  -- `Dataset.Replace`
  unfoldable pub replace :
      Option (Dataset fl)
      → CompletionMode
      → List (DatasetRecord lib)
      → World
      → List WriteResult × Option Error × World
  replace dataset mode records w =
      dataset_write "replace" mode w
        (put_operations lib fl dataset WriteMode.replace "replace" records)

  -- `Dataset.Upsert`
  unfoldable pub upsert :
      Option (Dataset fl)
      → CompletionMode
      → List (DatasetRecord lib)
      → World
      → List WriteResult × Option Error × World
  upsert dataset mode records w =
      dataset_write "upsert" mode w
        (put_operations lib fl dataset WriteMode.upsert "upsert" records)

  -- `Dataset.Merge`
  unfoldable pub merge :
      Option (Dataset fl)
      → CompletionMode
      → List (DatasetRecord lib)
      → World
      → List WriteResult × Option Error × World
  merge dataset mode records w =
      dataset_write "merge" mode w (merge_operations lib fl dataset records)
