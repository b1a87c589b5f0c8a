-- ===== src/Examples/Uris.antt =====
-- uri/address.go at concrete addresses.
use sink_go.Base.{◌≡◌, refl, [], ◌∷◌, arith, codes, ok, err}
use sink_go.Uri.Address.{
  Address, not_canonical, invalid_store, invalid_segment, empty_path, parse, new_address,
  valid_store, valid_segment, valid_store_bytes, parse_segment, parse_segments, parse_path,
  parse_parts,
}
use sink_go.Uri.Address.Canonical.{
  IsCanonical, render, parse-IsCanonical, parse_injective, new_address_lem,
}
use sink_go.Uri.Escape.{
  path_escape, path_unescape, should_escape, upper_hex, escape_byte, unhex, hex_pair,
}
use sink_go.Uri.Text.{cut, cut_prefix, split, join}
use sink_go.Uri.Utf8.{valid_string, first, feed, at_boundary, run}

abbrev users : Address
users = record {
  value = codes "sink://main/shop/a%20b";
  store = codes "main";
  segments = codes "shop" ∷ codes "a b" ∷ [];
}

parse-users : parse (codes "sink://main/shop/a%20b") ≡ ok users
unfolding parse valid_store valid_segment valid_store_bytes parse_segment parse_segments parse_path
    parse_parts path_escape path_unescape should_escape upper_hex escape_byte unhex hex_pair cut
    cut_prefix split valid_string first feed at_boundary run
parse-users = refl

-- A space that is not escaped, an escape that is not needed, an empty path, an empty and a dotted
-- segment, and a store in upper case.
parse_refuses :
    (parse (codes "sink://main/a b") ≡ err not_canonical)
    × (parse (codes "sink://main/%61") ≡ err not_canonical)
    × (parse (codes "sink://main/") ≡ err empty_path)
    × (parse (codes "sink://main/a//b") ≡ err invalid_segment)
    × (parse (codes "sink://main/..") ≡ err invalid_segment)
    × (parse (codes "sink://Main/a") ≡ err invalid_store)
unfolding parse valid_store valid_segment valid_store_bytes parse_segment parse_segments parse_path
    parse_parts path_escape path_unescape should_escape upper_hex escape_byte unhex hex_pair cut
    cut_prefix split valid_string first feed at_boundary run
parse_refuses = (refl, refl, refl, refl, refl, refl)

parse-IsCanonical_example : (users.value ≡ codes "sink://main/shop/a%20b") × IsCanonical users
parse-IsCanonical_example = parse-IsCanonical (codes "sink://main/shop/a%20b") parse-users

parse_injective_example : codes "sink://main/shop/a%20b" ≡ codes "sink://main/shop/a%20b"
parse_injective_example =
    parse_injective (codes "sink://main/shop/a%20b") (codes "sink://main/shop/a%20b") parse-users
      parse-users refl refl

new_address_lem_example :
    new_address (codes "main") (codes "a/b" ∷ [])
    ≡ ok (record {
      value = render (codes "main") (codes "a/b" ∷ []);
      store = codes "main";
      segments = codes "a/b" ∷ [];
    })
unfolding valid_store valid_store_bytes valid_segment valid_string first feed at_boundary run
    path_escape escape_byte should_escape upper_hex join
new_address_lem_example =
    new_address_lem (codes "main") (codes "a/b" ∷ []) refl
      ((omega arith, (omega arith, (omega arith, tt))), tt) (refl, tt) (omega arith)
