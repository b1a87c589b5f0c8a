-- ===== src/Libraries.antt =====
-- What package sink calls and does not implement: encoding/json, the MongoDB driver's bson, SHA-256,
-- package mime and reflection on Go values. Nothing is assumed of them but that they are functions.
use sink_go.Base.{Bool, Option, List, Result, Bytes}
use sink_go.Errors.{Error}

pub record Libraries : Type 1 where
  -- A Go value of type `any`.
  pub Value : Type 0
  pub json_marshal : Value → Result Error Bytes
  pub bson_marshal : Value → Result Error Bytes
  pub json_unmarshal : Bytes → Result Error Value
  pub bson_unmarshal : Bytes → Result Error Value
  pub json_valid : Bytes → Bool
  -- `bson.Raw.Validate`
  pub bson_validate : Bytes → Option Error
  pub sha256_sum : Bytes → Bytes
  -- The media type of `mime.ParseMediaType`; its parameters are dropped at every call.
  pub parse_media_type : Bytes → Result Error Bytes
  pub is_nil : Value → Bool
  -- Is the value, behind its pointers, a map?
  pub is_map : Value → Bool
  -- A text as a value, and a `bson.D`: names with their values, in order.
  pub text_value : Bytes → Value
  pub ordered_document : List (Bytes × Value) → Value
