-- ===== src/Uri/Address.antt =====
-- uri/address.go: canonical resource addresses.
pub mod Segments
pub mod Canonical
use sink_go.Base.{
  ℕ, String, ◌+◌, ◌≡◌, ◌≢◌, refl, Bool, true, false, not, ◌&&◌, ◌||◌, Option, none, some, List, [],
  ◌∷◌, ◌++◌, map, arith, ltb, leb, ◌==◌, if◌then◌else◌, Bytes, codes, bytes_eq, length, is_empty,
  All, Result, ok, err, ◌>>=◌, ◌>>◌, fail_if, or_err,
}
use sink_go.Uri.Escape.{path_escape, path_unescape}
use sink_go.Uri.Utf8.{valid_string}
use sink_go.Uri.Text.{cut, cut_prefix, split, join}

-- The errors of package uri, by the condition that each text reports.
pub data UriError : Type 0 where
  too_long not_sink invalid_store empty_path invalid_escape invalid_segment not_canonical : UriError
  not_utf8_key wrong_int64_length unsupported_key : UriError
  missing_tag missing_opaque_data unknown_tag corrupt_base64 invalid_int not_canonical_key :
      UriError

abbrev pub max_address_bytes : ℕ
max_address_bytes = 16384

abbrev pub slash : ℕ
slash = b'/'

abbrev pub scheme : Bytes
scheme = codes "sink://"

pub record Address : Type 0 where
  pub value : Bytes
  pub store : Bytes
  pub segments : List Bytes

-- The loop of `ValidStore`; `start` tells the first byte.
unfoldable pub valid_store_bytes : Bool → Bytes → Bool
valid_store_bytes start [] = true
valid_store_bytes start (c ∷ s) =
    let rest = valid_store_bytes false s in
    if leb b'a' c && leb c b'z' || leb b'0' c && leb c b'9'
    then rest
    else if not start && (c == b'-' || c == b'_' || c == b'.')
    then rest
    else false

unfoldable pub valid_store : Bytes → Bool
unfolding valid_store_bytes
valid_store value =
    if length value == 0 || ltb 256 (length value) then false else valid_store_bytes true value

unfoldable pub valid_segment : Bytes → Bool
valid_segment value =
    if is_empty value
      || bytes_eq value (codes ".")
      || bytes_eq value (codes "..")
      || not (valid_string value)
    then false
    else true

-- One round of the loop in `Parse`.
unfoldable pub parse_segment : Bytes → Result UriError Bytes
parse_segment part = do
  decoded ← or_err (path_unescape part) invalid_escape
  fail_if (not (valid_segment decoded)) invalid_segment
  fail_if (not (bytes_eq (path_escape decoded) part)) not_canonical
  ok decoded

unfoldable pub parse_segments : List Bytes → Result UriError (List Bytes)
parse_segments [] = ok []
parse_segments (part ∷ parts) = do
  decoded ← parse_segment part
  rest ← parse_segments parts
  ok (decoded ∷ rest)

-- The part of `Parse` on a path that was found.
unfoldable pub parse_path : Bytes → Bytes → Bytes → Result UriError Address
parse_path value store path = do
  fail_if (is_empty path) empty_path
  segments ← parse_segments (split slash path)
  ok (record { value = value; store = store; segments = segments })

-- What follows `strings.Cut(remainder, "/")`.
unfoldable pub parse_parts : Bytes → Bytes × Bytes × Bool → Result UriError Address
parse_parts value (store, path, found) = do
  fail_if (not (valid_store store)) invalid_store
  if not found
      then ok (record { value = value; store = store; segments = [] })
      else parse_path value store path

unfoldable pub parse : Bytes → Result UriError Address
parse value = do
  fail_if (ltb max_address_bytes (length value)) too_long
  remainder ← or_err (cut_prefix scheme value) not_sink
  parse_parts value (cut slash remainder)

-- `New`
pub new_address : Bytes → List Bytes → Result UriError Address
new_address store segments =
    if is_empty segments
    then parse (scheme ++ store)
    else parse (scheme ++ (store ++ slash ∷ join slash (map path_escape segments)))

-- `EscapedPath`
unfoldable pub escaped_path : Address → Bytes
escaped_path a = elim (cut_prefix (scheme ++ a.store) a.value) [ none ↦ a.value | some rest ↦ rest ]

-- `RoutingKey`
pub routing_key : Address → Bytes
routing_key a = a.value
