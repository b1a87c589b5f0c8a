-- ===== src/Proto.antt =====
-- The messages of proto/sink/sink.proto as api/sink/v1/sink.pb.go declares them. A pointer that may
-- be nil is an `Option`; a value of an enum that the schema does not name is `other`.
pub mod Enums
pub mod Native
use sink_go.Base.{ℕ, Bool, Option, List, Bytes}
use sink_go.Proto.Enums.{
  DocumentEncoding, CompletionMode, ReadStatus, WriteMode, WriteStatus, DeleteStatus, FailureCode,
}

pub record RecordAddress : Type 0 where
  pub uri : Bytes

pub record Document : Type 0 where
  pub encoding : DocumentEncoding
  pub payload : Bytes

-- `content` is the source's `Data`.
pub record RevisionToken : Type 0 where
  pub content : Bytes

pub record Failure : Type 0 where
  pub code : FailureCode
  pub message : Bytes
  pub retryable : Bool

pub record ReadOperation : Type 0 where
  pub address : RecordAddress

pub record ReadRequest : Type 0 where
  pub operations : List ReadOperation

pub record ReadResult : Type 0 where
  pub operation_index : ℕ
  pub status : ReadStatus
  pub document : Option Document
  pub revision : Option RevisionToken
  pub failure : Option Failure

pub record ReadResponse : Type 0 where
  pub results : List (Option ReadResult)

pub record LuaProgram : Type 0 where
  pub source : Bytes
  pub sha256 : Bytes

pub record PutOperation : Type 0 where
  pub document : Document
  pub mode : WriteMode

pub record MergeOperation : Type 0 where
  pub incoming_document : Document
  pub lua_program : LuaProgram

pub data Action : Type 0 where
  put : PutOperation → Action
  merge : MergeOperation → Action

pub record WriteOperation : Type 0 where
  pub address : RecordAddress
  pub action : Option Action
  pub return_document : Bool

pub record WriteRequest : Type 0 where
  pub completion_mode : CompletionMode
  pub operations : List WriteOperation
  pub lua_programs : List LuaProgram

pub record WriteResult : Type 0 where
  pub operation_index : ℕ
  pub status : WriteStatus
  pub revision : Option RevisionToken
  pub failure : Option Failure
  pub document : Option Document

pub record WriteResponse : Type 0 where
  pub results : List (Option WriteResult)

pub record DeleteOperation : Type 0 where
  pub address : RecordAddress

pub record DeleteRequest : Type 0 where
  pub completion_mode : CompletionMode
  pub operations : List DeleteOperation

pub record DeleteResult : Type 0 where
  pub operation_index : ℕ
  pub status : DeleteStatus
  pub failure : Option Failure

pub record DeleteResponse : Type 0 where
  pub results : List (Option DeleteResult)

pub record QueryResponse : Type 0 where
  pub documents : List (Option Document)
  pub has_more : Bool

pub record ScanResponse : Type 0 where
  pub documents : List (Option Document)
  pub next_cursor : Bytes
