-- ===== src/Types/Operations.antt =====
-- types.go: write operations, and their conversion in wire.go.
use sink_go.Base.{Bool, true, false, Option, none, some, [], Result, ok, err, ◌>>◌, fail_if}
use sink_go.Errors.{Error, new}
use sink_go.Libraries.{Libraries}
use sink_go.Proto as Proto
use sink_go.Proto.Enums.{WriteMode, invalid_write_mode}
use sink_go.Types.Documents.{Document, zero_document, document_to_proto, validate_document}
use sink_go.Types.Keys.{Address, validate_address}
use sink_go.Types.Programs.{LuaProgram, validate_program}

pub data WriteAction : Type 0 where
  unspecified put merge : WriteAction

-- `MergeOptions` and `mergeOperation`, which have the same fields.
pub record MergeOperation : Type 0 where
  pub incoming : Document
  pub program : LuaProgram

pub record WriteOperation : Type 0 where
  pub return_document : Bool
  pub address : Address
  pub action : WriteAction
  pub put : Document
  pub mode : WriteMode
  pub merge : MergeOperation

-- `WithReturnedDocument`
unfoldable pub with_returned_document : WriteOperation → WriteOperation
with_returned_document o = record o { return_document = true }

-- `Address.toProto`
unfoldable pub address_to_proto : Address → Proto.RecordAddress
address_to_proto a = record { uri = a.value.value }

action_to_proto : WriteAction → WriteOperation → Option Proto.Action
action_to_proto WriteAction.put o =
    some (Proto.Action.put (record { document = document_to_proto o.put; mode = o.mode }))
action_to_proto WriteAction.merge o = some (
    Proto.Action.merge (record {
      incoming_document = document_to_proto o.merge.incoming;
      lua_program = record { source = []; sha256 = o.merge.program.sha256 };
    }))
action_to_proto WriteAction.unspecified o = none

-- `WriteOperation.toProto`
unfoldable pub operation_to_proto : WriteOperation → Proto.WriteOperation
unfolding action_to_proto
operation_to_proto o = record {
  address = address_to_proto o.address;
  action = action_to_proto o.action o;
  return_document = o.return_document;
}

-- Go's zero value.
abbrev zero_operation : WriteOperation
zero_operation = record {
  return_document = false;
  address = record { value = record { value = []; store = []; segments = [] } };
  action = WriteAction.unspecified;
  put = zero_document;
  mode = WriteMode.unspecified;
  merge = record { incoming = zero_document; program = record { source = []; sha256 = [] } };
}

abbrev pub put_operation : Address → Document → WriteMode → WriteOperation
put_operation address document mode = record zero_operation {
  address = address;
  action = WriteAction.put;
  put = document;
  mode = mode;
}

abbrev pub merge_operation : Address → MergeOperation → WriteOperation
merge_operation address opts = record zero_operation {
  address = address;
  action = WriteAction.merge;
  merge = opts;
}

module _ (lib : Libraries) where
  unfoldable pub new_put : Address → Document → WriteMode → Result Error WriteOperation
  new_put address document mode = do
    validate_address address
    validate_document lib document
    fail_if (invalid_write_mode mode) (new "put operation has an invalid write mode")
    ok (put_operation address document mode)

  unfoldable pub new_merge : Address → MergeOperation → Result Error WriteOperation
  new_merge address opts = do
    validate_address address
    validate_document lib opts.incoming
    validate_program lib opts.program
    ok (merge_operation address opts)

  validate_action : WriteAction → WriteOperation → Result Error (Unit {0})
  validate_action WriteAction.put o = do
    validate_document lib o.put
    fail_if (invalid_write_mode o.mode) (new "put operation has an invalid write mode")
    ok tt
  validate_action WriteAction.merge o = do
    validate_document lib o.merge.incoming
    validate_program lib o.merge.program
    ok tt
  validate_action WriteAction.unspecified o = err (new "write action is required")

  -- `WriteOperation.validate`
  unfoldable pub validate_operation : WriteOperation → Result Error (Unit {0})
  unfolding validate_action
  validate_operation o = do validate_address o.address; validate_action o.action o
