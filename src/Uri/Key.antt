-- ===== src/Uri/Key.antt =====
-- uri/key.go: typed record keys and their text form.
pub mod Forms
pub mod RoundTrip
pub mod Append
use sink_go.Base.{
  ℕ, ◌≡◌, Bool, true, false, not, ◌&&◌, ◌||◌, Option, none, some, List, [], ◌∷◌, ◌++◌, arith, ◌==◌,
  if◌then◌else◌, Bytes, codes, bytes_eq, length, is_empty, ℤ, Result, ok, err, ◌>>=◌, ◌>>◌, fail_if,
  or_err, refl,
}
use sink_go.Uri.Escape.{path_escape}
use sink_go.Uri.Utf8.{valid_string}
use sink_go.Uri.Text.{cut, cut_prefix}
use sink_go.Uri.Base64.{encode, decode_strict}
use sink_go.Uri.Decimal.{format_int, parse_int, to_int64, to_uint64, uint64, put_uint64}
use sink_go.Uri.Address.{
  UriError, not_utf8_key, wrong_int64_length, unsupported_key, missing_tag, missing_opaque_data,
  unknown_tag, corrupt_base64, invalid_int, not_canonical_key, Address, parse, slash,
}

-- `kind` is the source's `Type`, `content` its `Data`.
pub record Key : Type 0 where
  pub kind : Bytes
  pub content : Bytes

abbrev pub colon : ℕ
colon = b':'

abbrev pub opaque_prefix : Bytes
opaque_prefix = codes "opaque:"

abbrev pub string_key : Bytes → Key
string_key value = record { kind = codes "string"; content = value }

abbrev pub int64_key : ℤ → Key
int64_key value = record { kind = codes "int64"; content = put_uint64 8 (to_uint64 value) [] }

abbrev pub bytes_key : Bytes → Key
bytes_key value = record { kind = codes "bytes"; content = value }

abbrev pub opaque_key : Bytes → Bytes → Key
opaque_key kind value = record { kind = opaque_prefix ++ kind; content = value }

-- The default case of the switch, on `strings.CutPrefix(key.Type, "opaque:")`.
unfoldable pub format_opaque : Option Bytes → Bytes → Result UriError Bytes
format_opaque none content = err unsupported_key
format_opaque (some kind) content = do
  fail_if (is_empty kind || not (valid_string kind)) unsupported_key
  ok (codes "o:" ++ (encode kind ++ colon ∷ encode content))

unfoldable pub format_key : Key → Result UriError Bytes
format_key key =
    if bytes_eq key.kind (codes "string")
    then (do fail_if (not (valid_string key.content)) not_utf8_key; ok (codes "s:" ++ key.content))
    else if bytes_eq key.kind (codes "int64")
    then (do
      fail_if (not (length key.content == 8)) wrong_int64_length
      ok (codes "i:" ++ format_int (to_int64 (uint64 key.content 0))))
    else if bytes_eq key.kind (codes "bytes")
    then ok (codes "b:" ++ encode key.content)
    else format_opaque (cut_prefix opaque_prefix key.kind) key.content

unfoldable pub parse_opaque : Bytes × Bytes × Bool → Result UriError Key
parse_opaque (kind, encoded, found) = do
  fail_if (not found) missing_opaque_data
  decoded ← or_err (decode_strict kind) corrupt_base64
  content ← or_err (decode_strict encoded) corrupt_base64
  ok (opaque_key decoded content)

-- The switch of `ParseKey`, on the tag and the text behind it.
unfoldable pub parse_tagged : Bytes → Bytes → Result UriError Key
parse_tagged tag value =
    if bytes_eq tag (codes "s")
    then ok (string_key value)
    else if bytes_eq tag (codes "b")
    then (do content ← or_err (decode_strict value) corrupt_base64; ok (bytes_key content))
    else if bytes_eq tag (codes "i")
    then (do number ← or_err (parse_int value) invalid_int; ok (int64_key number))
    else if bytes_eq tag (codes "o")
    then parse_opaque (cut colon value)
    else err unknown_tag

-- The key is accepted only if it prints as the text that it was read from.
unfoldable pub check_canonical : Bytes → Key → Result UriError Key
check_canonical segment key = do
  canonical ← format_key key
  fail_if (not (bytes_eq canonical segment)) not_canonical_key
  ok key

unfoldable pub parse_cut : Bytes → Bytes × Bytes × Bool → Result UriError Key
parse_cut segment (tag, value, found) = do
  fail_if (not found) missing_tag
  key ← parse_tagged tag value
  check_canonical segment key

unfoldable pub parse_key : Bytes → Result UriError Key
parse_key segment = parse_cut segment (cut colon segment)

-- `AppendKey` of address.go.
unfoldable pub append_key : Bytes → Key → Result UriError Address
append_key resource key = do
  base ← parse resource
  segment ← format_key key
  parse (base.value ++ slash ∷ path_escape segment)
