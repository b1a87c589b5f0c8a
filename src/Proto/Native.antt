-- ===== src/Proto/Native.antt =====
-- The messages of the native command, query, count and scan calls.
use sink_go.Base.{ℕ, Bool, Option, List, Bytes}

pub record Header : Type 0 where
  pub name : Bytes
  pub values : List Bytes

pub record Command : Type 0 where
  pub uri : Bytes
  pub method : Bytes
  pub path : Bytes
  pub query : Bytes
  pub headers : List Header
  pub content_type : Bytes
  pub payload : Bytes

pub record ExecuteRequest : Type 0 where
  pub command : Command

pub record ExecuteResponse : Type 0 where
  pub content_type : Bytes
  pub payload : Bytes
  pub success : Bool
  pub status_code : ℕ
  pub headers : List Header

pub record SortField : Type 0 where
  pub field : Bytes
  pub descending : Bool

pub record Projection : Type 0 where
  pub fields : List Bytes
  pub exclude : Bool

pub record QueryRequest : Type 0 where
  pub command : Command
  pub page : ℕ
  pub page_size : ℕ
  pub sort : List SortField
  pub projection : Option Projection

pub record CountRequest : Type 0 where
  pub command : Command

pub record CountResponse : Type 0 where
  pub count : ℕ
  pub estimated : Bool

pub record ScanRequest : Type 0 where
  pub command : Command
  pub batch_size : ℕ
  pub cursor : Bytes
  pub projection : Option Projection
