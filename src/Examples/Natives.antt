-- ===== src/Examples/Natives.antt =====
-- query.go and native.go against the stub.
use sink_go.Base.{◌+◌, ◌≤◌, ◌≡◌, refl, true, none, some, [], ◌∷◌, codes, pos, ok}
use sink_go.Examples.Stub.{libraries, tenths, network, fresh, scan_counts, client, config}
use sink_go.Native.Commands.{
  Command, command_to_proto, header_names, validate_content, sorted_headers, sort_names,
}
use sink_go.Native.Pages.{page_documents, projection_to_proto}
use sink_go.Native.Query.{
  QueryRequest, QueryResponse, FitsPage, query_native, query_submitted, query_message, query_reply,
  sort_to_proto, query_native-FitsPage,
}
use sink_go.Native.Scan.{scan_page}
use sink_go.Native.Scan.Attempts.{ScanCounts, scan_page-calls}
use sink_go.Proto.Enums.{DocumentEncoding}
use sink_go.Proto.Native as Native
use sink_go.Types.Documents.{
  document_from_proto, new_raw_document, validate_document, validate_payload,
}
use sink_go.Types.Keys.{from_uri}
use sink_go.Uri.Address.{
  parse, valid_store, valid_segment, valid_store_bytes, parse_segment, parse_segments, parse_path,
  parse_parts,
}
use sink_go.Uri.Escape.{
  path_escape, path_unescape, should_escape, upper_hex, escape_byte, unhex, hex_pair,
}
use sink_go.Uri.Text.{cut, cut_prefix, split}
use sink_go.Uri.Utf8.{valid_string, first, feed, at_boundary, run}

abbrev find_all : Command
find_all = record {
  uri = codes "sink://m/t";
  method = [];
  path = [];
  query = [];
  headers = [];
  content_type = [];
  payload = [];
}

abbrev page_of_one : QueryRequest
page_of_one = record {
  command = find_all;
  page = pos 1;
  page_size = pos 1;
  sort = [];
  projection = none;
}

abbrev page : QueryResponse
page = record {
  documents = record { encoding = DocumentEncoding.bson; payload = 5 ∷ 0 ∷ 0 ∷ 0 ∷ 0 ∷ [] } ∷ [];
  has_more = true;
}

query-page : (query_native libraries tenths network (some client) page_of_one fresh).0 ≡ ok page
unfolding query_native query_submitted query_message query_reply sort_to_proto command_to_proto
    header_names validate_content sorted_headers sort_names page_documents projection_to_proto
    document_from_proto new_raw_document validate_document validate_payload from_uri parse
    valid_store valid_segment valid_store_bytes parse_segment parse_segments parse_path parse_parts
    path_escape path_unescape should_escape upper_hex escape_byte unhex hex_pair cut cut_prefix
    split valid_string first feed at_boundary run
query-page = refl

query_native-FitsPage_example : FitsPage libraries 1 page
query_native-FitsPage_example =
    query_native-FitsPage libraries tenths network (some client) page_of_one fresh query-page

abbrev scan_message : Native.ScanRequest
scan_message = record {
  command = record {
    uri = codes "sink://m/t";
    method = [];
    path = [];
    query = [];
    headers = [];
    content_type = [];
    payload = [];
  };
  batch_size = 0;
  cursor = [];
  projection = none;
}

scan_page-calls_example :
    ScanCounts.calls scan_counts
      (scan_page libraries tenths network config 100 scan_message fresh).1
    ≤ ScanCounts.calls scan_counts fresh + 3
scan_page-calls_example =
    scan_page-calls libraries tenths network scan_counts config 100 scan_message fresh
