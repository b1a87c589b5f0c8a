-- ===== src/Examples/Commands.antt =====
-- native.go: a command with two headers.
use mathlib.Core.List.{Permᴰ}
use sink_go.Base.{◌≡◌, refl, [], ◌∷◌, codes, ok}
use sink_go.Examples.Stub.{libraries}
use sink_go.Native.Commands.{
  Command, Headers, bytes_le, command_to_proto, equal_fold, header_names, insert_name, sort_names,
  sorted_headers, validate_content, values_of,
}
use sink_go.Native.Commands.Order.{Distinct, command_to_proto-Permᴰ}
use sink_go.Proto.Native as Native
use sink_go.Types.Keys.{from_uri}
use sink_go.Uri.Address.{
  parse, valid_store, valid_segment, valid_store_bytes, parse_segment, parse_segments, parse_path,
  parse_parts,
}
use sink_go.Uri.Escape.{
  path_escape, path_unescape, should_escape, upper_hex, escape_byte, unhex, hex_pair,
}
use sink_go.Uri.Text.{cut, cut_prefix, split}
use sink_go.Uri.Utf8.{valid_string, first, feed, at_boundary, run}

abbrev command : Command
command = record {
  uri = codes "sink://m";
  method = codes "GET";
  path = codes "/x";
  query = [];
  headers = (codes "X-B", codes "2" ∷ []) ∷ (codes "X-A", codes "1" ∷ codes "3" ∷ []) ∷ [];
  content_type = [];
  payload = [];
}

-- The other order of the map.
abbrev other_order : Headers
other_order = (codes "X-A", codes "1" ∷ codes "3" ∷ []) ∷ (codes "X-B", codes "2" ∷ []) ∷ []

abbrev message : Native.Command
message = record {
  uri = codes "sink://m";
  method = codes "GET";
  path = codes "/x";
  query = [];
  headers =
      record { name = codes "X-A"; values = codes "1" ∷ codes "3" ∷ [] }
      ∷ record { name = codes "X-B"; values = codes "2" ∷ [] }
      ∷ [];
  content_type = [];
  payload = [];
}

command_to_proto-command : command_to_proto libraries command ≡ ok message
unfolding command_to_proto validate_content header_names equal_fold bytes_le insert_name sort_names
    sorted_headers values_of from_uri parse valid_store valid_segment valid_store_bytes
    parse_segment parse_segments parse_path parse_parts path_escape path_unescape should_escape
    upper_hex escape_byte unhex hex_pair cut cut_prefix split valid_string first feed at_boundary
    run
command_to_proto-command = refl

command-Distinct : Distinct command.headers
command-Distinct = ((refl, tt), (tt, tt))

command_to_proto-Permᴰ_example :
    command_to_proto libraries (record command { headers = other_order }) ≡ ok message
command_to_proto-Permᴰ_example =
    command_to_proto-Permᴰ libraries command other_order message command-Distinct
      (Permᴰ.swap refl refl) command_to_proto-command
