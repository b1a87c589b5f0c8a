-- ===== src/Types/Documents.antt =====
-- types.go: documents, and their conversion in wire.go.
use sink_go.Base.{
  ℕ, ◌-◌, Bool, false, not, ◌||◌, Option, none, some, [], Bytes, ltb, ◌==◌, get_elem?, length,
  Result, ok, err, ◌>>=◌, ◌>>◌, fail_if, wrap_err,
}
use sink_go.Errors.{Error, new, wrap}
use sink_go.Libraries.{Libraries}
use sink_go.Proto as Proto
use sink_go.Proto.Enums.{DocumentEncoding}
use sink_go.Uri.Text.{trim_space}

pub record Document : Type 0 where
  pub encoding : DocumentEncoding
  pub payload : Bytes

abbrev pub zero_document : Document
zero_document = record { encoding = DocumentEncoding.unspecified; payload = [] }

-- The byte at a place of the text is `c`.
pub has_byte : Bytes → ℕ → ℕ → Bool
has_byte s i c = elim (get_elem? s i) [ none ↦ false | some b ↦ b == c ]

-- `err != nil` after a call that returns only an error.
abbrev pub none_ok : (Error → Error) → Option Error → Result Error (Unit {0})
none_ok f none = ok tt
none_ok f (some e) = err (f e)

-- `Document.toProto`
unfoldable pub document_to_proto : Document → Proto.Document
document_to_proto d = record { encoding = d.encoding; payload = d.payload }

module _ (lib : Libraries) where
  open lib use {
    Value, json_marshal, bson_marshal, json_unmarshal, bson_unmarshal, json_valid, bson_validate,
  }

  unfoldable pub validate_json : Bytes → Result Error (Unit {0})
  unfolding has_byte
  validate_json trimmed =
      fail_if
        (ltb (length trimmed) 2
          || not (has_byte trimmed 0 b'{')
          || not (has_byte trimmed (length trimmed - 1) b'}')
          || not (json_valid trimmed))
        (new "document payload must contain a valid JSON object")

  unfoldable pub validate_payload : DocumentEncoding → Bytes → Result Error (Unit {0})
  validate_payload DocumentEncoding.json payload = validate_json (trim_space payload)
  validate_payload DocumentEncoding.bson payload =
      none_ok (wrap "document payload must contain a valid BSON document: %w")
        (bson_validate payload)
  validate_payload _ payload = err (new "document encoding is required")

  -- `Document.validate`
  unfoldable pub validate_document : Document → Result Error (Unit {0})
  validate_document d = validate_payload d.encoding d.payload

  unfoldable pub new_raw_document : DocumentEncoding → Bytes → Result Error Document
  new_raw_document encoding payload = do
    validate_document (record { encoding = encoding; payload = payload })
    ok (record { encoding = encoding; payload = payload })

  unfoldable pub encode_value : Value → DocumentEncoding → Result Error Bytes
  encode_value value DocumentEncoding.json =
      wrap_err (wrap "encode JSON document: %w") (json_marshal value)
  encode_value value DocumentEncoding.bson =
      wrap_err (wrap "encode BSON document: %w") (bson_marshal value)
  encode_value value _ = err (new "document encoding is required")

  unfoldable pub new_document : Value → DocumentEncoding → Result Error Document
  unfolding encode_value
  new_document value encoding = do
    encoded ← encode_value value encoding
    new_raw_document encoding encoded

  decode_payload : DocumentEncoding → Bytes → Result Error Value
  decode_payload DocumentEncoding.json payload =
      wrap_err (wrap "decode document: %w") (json_unmarshal payload)
  decode_payload DocumentEncoding.bson payload =
      wrap_err (wrap "decode document: %w") (bson_unmarshal payload)
  decode_payload _ payload = err (new "decode document: encoding is required")

  -- `Document.Decode`, with what it stores in the destination; `absent` tells a nil destination.
  unfoldable pub decode_document : Document → (absent : Bool) → Result Error Value
  unfolding decode_payload
  decode_document d absent = do
    fail_if absent (new "decode document: destination is required")
    decode_payload d.encoding d.payload

  -- `documentFromProto` of wire.go.
  unfoldable pub document_from_proto : Option Proto.Document → Result Error Document
  document_from_proto none = err (new "document is missing")
  document_from_proto (some d) = new_raw_document d.encoding d.payload
