-- ===== src/Examples/Keys.antt =====
-- uri/key.go at concrete keys.
use sink_go.Base.{are_bytes-IsBytes, ◌≡◌, refl, [], ◌∷◌, ◌++◌, Bytes, IsBytes, codes, negsuc, ok}
use sink_go.Uri.Address.{
  Address, parse, valid_store, valid_segment, valid_store_bytes, parse_segment, parse_segments,
  parse_path, parse_parts,
}
use sink_go.Uri.Decimal.{put_uint64, to_uint64, format_int, digits, to_int64, uint64}
use sink_go.Uri.Escape.{
  path_escape, path_unescape, should_escape, upper_hex, escape_byte, unhex, hex_pair,
}
use sink_go.Uri.Key.{
  Key, string_key, int64_key, format_key, parse_key, append_key, parse_tagged, check_canonical,
  parse_cut,
}
use sink_go.Uri.Key.Append.{append_key_lem, append_key_injective}
use sink_go.Uri.Key.RoundTrip.{format_key-parse_key, parse_key-format_key}
use sink_go.Uri.Text.{cut, cut_prefix, split}
use sink_go.Uri.Utf8.{valid_string, first, feed, at_boundary, run}

abbrev resource : Bytes
resource = codes "sink://m/t"

abbrev key : Key
key = string_key (codes "a/")

abbrev record_address : Address
record_address = record {
  value = codes "sink://m/t/s:a%2F";
  store = codes "m";
  segments = codes "t" ∷ codes "s:a/" ∷ [];
}

format_key-int64 : format_key (int64_key (negsuc 41)) ≡ ok (codes "i:-42")
unfolding format_key put_uint64 to_uint64 format_int digits to_int64 uint64
format_key-int64 = refl

format_key-key : format_key key ≡ ok (codes "s:a/")
unfolding format_key valid_string first feed at_boundary run
format_key-key = refl

parse_key-key : parse_key (codes "s:a/") ≡ ok key
unfolding format_key valid_string first feed at_boundary run parse_key parse_cut parse_tagged
    check_canonical cut
parse_key-key = refl

append_key-key : append_key resource key ≡ ok record_address
unfolding append_key format_key parse valid_store valid_segment valid_store_bytes parse_segment
    parse_segments parse_path parse_parts path_escape path_unescape should_escape upper_hex
    escape_byte unhex hex_pair cut cut_prefix split valid_string first feed at_boundary run
append_key-key = refl

content-IsBytes : IsBytes key.content
content-IsBytes = are_bytes-IsBytes key.content refl

kind-IsBytes : IsBytes key.kind
kind-IsBytes = are_bytes-IsBytes key.kind refl

resource-IsBytes : IsBytes resource
resource-IsBytes = are_bytes-IsBytes resource refl

parse_key-format_key_example : parse_key (codes "s:a/") ≡ ok key
parse_key-format_key_example = parse_key-format_key key kind-IsBytes content-IsBytes format_key-key

format_key-parse_key_example : format_key key ≡ ok (codes "s:a/")
format_key-parse_key_example = format_key-parse_key (codes "s:a/") parse_key-key

append_key_lem_example :
    (base : Address) × (s : Bytes) × (parse resource ≡ ok base)
    × (format_key key ≡ ok s)
    × (record_address.store ≡ base.store)
    × (record_address.segments ≡ base.segments ++ s ∷ [])
append_key_lem_example = append_key_lem resource key resource-IsBytes content-IsBytes append_key-key

append_key_injective_example : (resource ≡ resource) × (key ≡ key)
append_key_injective_example =
    append_key_injective resource resource key key resource-IsBytes resource-IsBytes kind-IsBytes
      content-IsBytes kind-IsBytes content-IsBytes append_key-key append_key-key refl refl
