-- ===== src/Examples/Datasets.antt =====
-- dataset.go against the stub.
use sink_go.Base.{◌≡◌, refl, none, some, List, [], ◌∷◌, All, codes, length, ok}
use sink_go.Client.Backoff.{jittered_backoff, next_backoff, wait_for_backoff}
use sink_go.Client.BatchLoop.{run_batches, on_batch}
use sink_go.Client.Config.{validate_collection, valid_completion_mode}
use sink_go.Client.Reads.{
  absorb, all_pending, on_decoded, on_reply, read_batch, read_batches, read_operations_with_retry,
  read_records, read_requests, read_rounds, resume,
}
use sink_go.Client.Writes.{
  check_documents, lua_programs, validate_writes, write_batch, write_batches, write_records,
  write_reply, write_request,
}
use sink_go.Dataset.{
  Dataset, dataset_read, dataset_write, joined, joined_error, key_addresses, read_addresses,
}
use sink_go.Dataset.Failures.{dataset_read-none, dataset_write-none}
use sink_go.Examples.Stub.{libraries, tenths, network, fresh, client, usable, address}
use sink_go.Proto.Enums.{CompletionMode, DocumentEncoding, WriteMode}
use sink_go.Results.{
  decode_items, decode_read_response, decode_write_response, read_result, read_status_result,
  write_result, write_document, write_failure,
}
use sink_go.Results.Loop.{decode_loop, validate_result_index}
use sink_go.Types.Documents.{validate_document, validate_payload, document_to_proto}
use sink_go.Types.Keys.{
  Key, string_key, new_address, new_record_address, validate_key, uri_key, from_uri,
  validate_address,
}
use sink_go.Types.Operations.{
  WriteOperation, put_operation, address_to_proto, operation_to_proto, validate_operation,
}
use sink_go.Types.Outcomes.{
  ReadResult, WriteResult, new_batch_error, read_failures, write_failures, read_results_error,
  write_results_error, revision_from_proto,
}
use sink_go.Uri.Address.{
  parse, valid_store, valid_segment, valid_store_bytes, parse_segment, parse_segments, parse_path,
  parse_parts,
}
use sink_go.Uri.Escape.{
  path_escape, path_unescape, should_escape, upper_hex, escape_byte, unhex, hex_pair,
}
use sink_go.Uri.Key.{append_key, format_key}
use sink_go.Uri.Text.{cut, cut_prefix, split}
use sink_go.Uri.Utf8.{valid_string, first, feed, at_boundary, run}

abbrev users : Dataset tenths
users = record {
  client = client;
  uri = codes "sink://m/t";
  encoding = DocumentEncoding.bson;
  merge_program = none;
}

abbrev keys : List Key
keys = string_key (codes "a") ∷ []

read-keys : (dataset_read libraries tenths network (some users) keys fresh).1 ≡ none
unfolding dataset_read read_addresses joined joined_error key_addresses read_results_error
    new_batch_error read_failures new_record_address new_address validate_key uri_key from_uri
    validate_address address_to_proto read_records validate_collection read_requests read_batches
    read_batch run_batches on_batch read_operations_with_retry read_rounds all_pending absorb
    on_decoded on_reply resume jittered_backoff next_backoff wait_for_backoff decode_items
    decode_read_response decode_loop validate_result_index read_result read_status_result append_key
    format_key parse valid_store valid_segment valid_store_bytes parse_segment parse_segments
    parse_path parse_parts path_escape path_unescape should_escape upper_hex escape_byte unhex
    hex_pair cut cut_prefix split valid_string first feed at_boundary run
read-keys = refl

dataset_read-none_example :
    (length (dataset_read libraries tenths network (some users) keys fresh).0 ≡ 1)
    × All
        (λ (r : ReadResult). r.failure ≡ none)
        (dataset_read libraries tenths network (some users) keys fresh).0
dataset_read-none_example =
    dataset_read-none libraries tenths network users keys fresh usable read-keys

abbrev upserts : List WriteOperation
upserts =
    put_operation (address (codes "a"))
      (record { encoding = DocumentEncoding.bson; payload = 5 ∷ 0 ∷ 0 ∷ 0 ∷ 0 ∷ [] })
      WriteMode.upsert
    ∷ []

write-upserts :
    (dataset_write libraries tenths network "upsert" CompletionMode.wait_until_applied fresh
      (ok (users, upserts))).1
    ≡ none
unfolding dataset_write joined joined_error write_results_error new_batch_error write_failures
    new_address from_uri validate_address address_to_proto operation_to_proto document_to_proto
    validate_operation validate_document validate_payload write_records validate_collection
    valid_completion_mode validate_writes write_batches write_batch write_reply write_request
    lua_programs check_documents run_batches on_batch decode_items decode_write_response decode_loop
    validate_result_index write_result write_document write_failure revision_from_proto parse
    valid_store valid_segment valid_store_bytes parse_segment parse_segments parse_path parse_parts
    path_escape path_unescape should_escape upper_hex escape_byte unhex hex_pair cut cut_prefix
    split valid_string first feed at_boundary run
write-upserts = refl

dataset_write-none_example :
    (length
        (dataset_write libraries tenths network "upsert" CompletionMode.wait_until_applied fresh
          (ok (users, upserts))).0
      ≡ 1)
    × All
        (λ (r : WriteResult). r.failure ≡ none)
        (dataset_write libraries tenths network "upsert" CompletionMode.wait_until_applied fresh
          (ok (users, upserts))).0
dataset_write-none_example =
    dataset_write-none libraries tenths network "upsert" CompletionMode.wait_until_applied fresh
      users upserts usable write-upserts
