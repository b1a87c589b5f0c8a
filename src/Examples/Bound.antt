-- ===== src/Examples/Bound.antt =====
-- dataset_native.go: a command with one argument.
use sink_go.Base.{pos, ◌≡◌, refl, none, some, List, [], ◌∷◌, Bytes, codes, ok}
use sink_go.Dataset.{Dataset, validate_dataset}
use sink_go.Dataset.Native.{
  dataset_bson_command, dataset_execute, dataset_query, dataset_count, dataset_scan,
}
use sink_go.Native.Execute.{execute_native}
use sink_go.Native.Query.{QueryRequest, query_native, count_native}
use sink_go.Native.Scan.{ScanRequest, scan_native}
use sink_go.Dataset.Bound.{dataset-bson_command}
use sink_go.Examples.Stub.{libraries, tenths, client, network, fresh}
use sink_go.Native.Commands.{Command, new_bson_command}
use sink_go.Proto.Enums.{DocumentEncoding}
use sink_go.Types.Keys.{from_uri}
use sink_go.Uri.Address.{
  parse, valid_store, valid_segment, valid_store_bytes, parse_segment, parse_segments, parse_path,
  parse_parts,
}
use sink_go.Uri.Escape.{
  path_escape, path_unescape, should_escape, upper_hex, escape_byte, unhex, hex_pair,
}
use sink_go.Uri.Text.{cut, cut_prefix, split, trim_space}
use sink_go.Uri.Utf8.{valid_string, first, feed, at_boundary, run}

abbrev users : Dataset tenths
users = record {
  client = client;
  uri = codes "sink://m/t";
  encoding = DocumentEncoding.json;
  merge_program = none;
}

abbrev arguments : List (Bytes × Bytes)
arguments = (codes "limit", codes "2") ∷ []

abbrev command : Command
command = record {
  uri = codes "sink://m/t";
  method = [];
  path = [];
  query = [];
  headers = [];
  content_type = codes "application/bson";
  payload = codes "countlimit2";
}

dataset_bson_command-users :
    dataset_bson_command libraries tenths (some users) (codes "count") arguments ≡ ok command
unfolding dataset_bson_command validate_dataset new_bson_command trim_space from_uri parse
    valid_store valid_segment valid_store_bytes parse_segment parse_segments parse_path parse_parts
    path_escape path_unescape should_escape upper_hex escape_byte unhex hex_pair cut cut_prefix
    split valid_string first feed at_boundary run
dataset_bson_command-users = refl

abbrev query : QueryRequest
query = record { command = command; page = pos 1; page_size = pos 2; sort = []; projection = none }

abbrev scan : ScanRequest
scan = record { command = command; batch_size = pos 2; cursor = []; projection = none }

dataset-bson_command_example :
    (d : Dataset tenths) × (some users ≡ some d)
    × (command.uri ≡ d.uri)
    × (dataset_execute libraries tenths network (some users) command fresh
        ≡ execute_native libraries tenths network (some d.client) command fresh)
    × (dataset_query libraries tenths network (some users) query fresh
        ≡ query_native libraries tenths network (some d.client) query fresh)
    × (dataset_count libraries tenths network (some users) command fresh
        ≡ count_native libraries tenths network (some d.client) command fresh)
    × (dataset_scan libraries tenths network (some users) scan fresh
        ≡ scan_native libraries tenths network (some d.client) scan fresh)
dataset-bson_command_example =
    dataset-bson_command libraries tenths network (some users) (codes "count") arguments command
      query scan fresh dataset_bson_command-users
