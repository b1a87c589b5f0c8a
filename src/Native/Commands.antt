-- ===== src/Native/Commands.antt =====
-- native.go: `Command` and its message.
pub mod Order
pub mod Bson
use sink_go.Base.{
  ℕ, ◌+◌, Bool, true, false, not, ◌&&◌, ◌||◌, List, [], ◌∷◌, map, ltb, leb, ◌==◌, if◌then◌else◌,
  Bytes, codes, bytes_eq, is_empty, Result, ok, err, ◌>>=◌, ◌>>◌, fail_if, wrap_err,
}
use sink_go.Errors.{Error, new, wrap}
use sink_go.Libraries.{Libraries}
use sink_go.Proto.Native as Native
use sink_go.Types.Documents.{none_ok}
use sink_go.Types.Keys.{from_uri}
use sink_go.Uri.Address.{Address, parse}

-- A map from names to values, in the order in which the source's loop comes upon its entries.
abbrev pub Headers : Type 0
Headers = List (Bytes × List Bytes)

pub record Command : Type 0 where
  pub uri : Bytes
  pub method : Bytes
  pub path : Bytes
  pub query : Bytes
  pub headers : Headers
  pub content_type : Bytes
  pub payload : Bytes

abbrev lower : ℕ → ℕ
lower c = if leb b'A' c && leb c b'Z' then c + 32 else c

-- `strings.EqualFold` with a text whose letters have no other case than the ASCII one.
unfoldable pub equal_fold : Bytes → Bytes → Bool
equal_fold s t = bytes_eq (map lower s) (map lower t)

-- The order of `sort.Strings`.
unfoldable pub bytes_le : Bytes → Bytes → Bool
bytes_le [] t = true
bytes_le (a ∷ s) [] = false
bytes_le (a ∷ s) (b ∷ t) = ltb a b || (a == b) && bytes_le s t

unfoldable pub insert_name : Bytes → List Bytes → List Bytes
insert_name name [] = name ∷ []
insert_name name (n ∷ names) =
    let rest = insert_name name names in if bytes_le name n then name ∷ n ∷ names else n ∷ rest

unfoldable pub sort_names : List Bytes → List Bytes
sort_names [] = []
sort_names (n ∷ names) = insert_name n (sort_names names)

-- `c.Headers[name]`
unfoldable pub values_of : Headers → Bytes → List Bytes
values_of [] name = []
values_of ((n, values) ∷ headers) name =
    let rest = values_of headers name in if bytes_eq n name then values else rest

-- The loop over the headers: their names, each valid.
unfoldable pub header_names : Headers → Result Error (List Bytes)
header_names [] = ok []
header_names ((name, values) ∷ headers) = do
  fail_if (is_empty name || is_empty values) (new "native header requires a name and values")
  fail_if (equal_fold name (codes "Content-Type")) (new "set ContentType directly, not in Headers")
  names ← header_names headers
  ok (name ∷ names)

abbrev pub header_of : Headers → Bytes → Native.Header
header_of headers name = record { name = name; values = values_of headers name }

-- `append(command.Headers, header)` over the sorted names.
unfoldable pub sorted_headers : Headers → List Bytes → List Native.Header
sorted_headers headers names = map (header_of headers) (sort_names names)

module _ (lib : Libraries) where
  open lib use {Value, parse_media_type, bson_validate, bson_marshal, is_nil, is_map}

  -- A BSON payload must be a document.
  unfoldable pub validate_body : Bytes → Bytes → Result Error (Unit {0})
  validate_body media_type payload =
      if bytes_eq media_type (codes "application/bson") && not (is_empty payload)
      then none_ok (wrap "invalid BSON command: %w") (bson_validate payload)
      else ok tt

  unfoldable pub validate_content : Bytes → Bytes → Result Error (Unit {0})
  validate_content [] payload = ok tt
  validate_content (c ∷ s) payload = do
    media_type ← wrap_err (wrap "invalid native ContentType: %w") (parse_media_type (c ∷ s))
    validate_body media_type payload

  -- `Command.toProto`
  unfoldable pub command_to_proto : Command → Result Error Native.Command
  command_to_proto c = do
    parsed ← wrap_err (wrap "native command URI: %w") (from_uri (parse c.uri))
    fail_if (not (is_empty c.payload) && is_empty c.content_type)
        (new "native payload requires ContentType")
    validate_content c.content_type c.payload
    names ← header_names c.headers
    ok (record {
      uri = c.uri;
      method = c.method;
      path = c.path;
      query = c.query;
      headers = sorted_headers c.headers names;
      content_type = c.content_type;
      payload = c.payload;
    })

  abbrev pub bson_command : Bytes → Bytes → Command
  bson_command uri payload = record {
    uri = uri;
    method = [];
    path = [];
    query = [];
    headers = [];
    content_type = codes "application/bson";
    payload = payload;
  }

  -- The first error of `NewBSONCommand`: a target that does not parse, or a nil value.
  target_of : Result Error Address → Bool → Result Error Address
  target_of (err e) absent =
      err (new "BSON command requires a canonical resource URI and ordered value")
  target_of (ok address) true =
      err (new "BSON command requires a canonical resource URI and ordered value")
  target_of (ok address) false = ok address

  -- `NewBSONCommand`
  unfoldable pub new_bson_command : Bytes → Value → Result Error Command
  unfolding target_of
  new_bson_command target value = do
    address ← target_of (from_uri (parse target)) (is_nil value)
    fail_if (is_map value)
        (new "BSON commands must preserve field order; use a struct, bson.D, or bson.Raw")
    payload ← wrap_err (wrap "encode BSON command: %w") (bson_marshal value)
    ok (bson_command address.value payload)
