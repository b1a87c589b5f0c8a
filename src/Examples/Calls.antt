-- ===== src/Examples/Calls.antt =====
-- client.go against the stub: three operations in batches of two.
use sink_go.Base.{
  ◌++◌, err, ok, true, false, ◌≡◌, refl, ℕ, ◌+◌, ◌≤◌, refl, some, List, [], ◌∷◌, length, map, codes,
}
use sink_go.Client.Config.Usable.{IsUsable, new_client_config-IsUsable}
use sink_go.Client.Deletes.{delete_records}
use sink_go.Client.Deletes.Delivery as Deletes
use sink_go.Client.Deletes.Delivery.{delete_records-Finished, delete_records-Delivered, request_of}
use sink_go.Client.Reads.{read_records, read_operations_with_retry}
use sink_go.Client.Reads.Attempts.{Counts, read_operations_with_retry-calls}
use sink_go.Client.Reads.Batches as Reads
use sink_go.Client.Reads.Batches.{read_records-Finished}
use sink_go.Client.Writes.{lua_programs, contains, write_records}
use sink_go.Client.Writes.Declared.{Sent, write_records-Declares}
use sink_go.Client.Writes.Delivery as Writes
use sink_go.Client.Writes.Delivery.{write_records-Finished, write_records-Delivered}
use sink_go.Examples.Stub.{
  libraries, tenths, Server, fresh, network, counts, options, policy, config, unavailable_status,
  new_client_config-options, usable, client, address, addresses,
}
use sink_go.Network.{Network}
use sink_go.Proto as Proto
use sink_go.Proto.Enums.{CompletionMode, DocumentEncoding, WriteMode}
use sink_go.Types.Operations.{merge_operation, WriteOperation, put_operation}
use sink_go.Client.BatchLoop.{run_batches, on_batch}
use sink_go.Client.Config.{validate_collection, valid_completion_mode}
use sink_go.Client.Writes.{
  check_documents, validate_writes, write_batch, write_batches, write_reply, write_request,
}
use sink_go.Results.{
  decode_items, decode_write_response, write_result, write_document, write_failure,
}
use sink_go.Results.Loop.{decode_loop, validate_result_index}
use sink_go.Types.Documents.{validate_document, validate_payload, document_to_proto}
use sink_go.Types.Keys.{new_address, validate_address}
use sink_go.Types.Operations.{address_to_proto, operation_to_proto, validate_operation}
use sink_go.Types.Outcomes.{revision_from_proto}
use sink_go.Uri.Address.{
  parse, valid_store, valid_segment, valid_store_bytes, parse_segment, parse_segments, parse_path,
  parse_parts,
}
use sink_go.Uri.Escape.{
  path_escape, path_unescape, should_escape, upper_hex, escape_byte, unhex, hex_pair,
}
use sink_go.Uri.Text.{cut, cut_prefix, split}
use sink_go.Uri.Utf8.{valid_string, first, feed, at_boundary, run}
use sink_go.Types.Programs.{validate_program}
use sink_go.Types.Keys.{from_uri}
use sink_go.Types.Documents.{validate_json}
use sink_go.Uri.Text.{trim_space}

abbrev upsert : List ℕ → WriteOperation
upsert segment =
    put_operation (address segment)
      (record { encoding = DocumentEncoding.json; payload = codes "{}" }) WriteMode.upsert

abbrev upserts : List WriteOperation
upserts = upsert (codes "a") ∷ upsert (codes "b") ∷ upsert (codes "c") ∷ []

abbrev requests : List Proto.ReadOperation
requests = record { address = record { uri = codes "sink://m/a" } } ∷ []

read_records-Finished_example :
    Reads.Finished 3 (read_records libraries tenths network (some client) addresses fresh)
read_records-Finished_example =
    read_records-Finished libraries tenths network client addresses fresh usable

write_records-Finished_example : Writes.Finished 3 (
    write_records libraries tenths network
      (some client)
      CompletionMode.wait_until_applied
      upserts
      fresh)
write_records-Finished_example =
    write_records-Finished libraries tenths network client CompletionMode.wait_until_applied upserts
      fresh usable

write_records-Delivered_example :
    Writes.Delivered libraries tenths network
      (λ (w : Server). w.writes)
      (λ request w. refl)
      upserts
      fresh
      (write_records libraries tenths network
        (some client)
        CompletionMode.wait_until_applied
        upserts
        fresh)
write_records-Delivered_example =
    write_records-Delivered libraries tenths network (λ (w : Server). w.writes) (λ request w. refl)
      client CompletionMode.wait_until_applied upserts fresh usable

delete_records-Finished_example : Deletes.Finished 3 (
    delete_records libraries tenths network
      (some client)
      CompletionMode.wait_until_applied
      addresses
      fresh)
delete_records-Finished_example =
    delete_records-Finished libraries tenths network client CompletionMode.wait_until_applied
      addresses fresh usable

delete_records-Delivered_example :
    Deletes.Delivered libraries tenths network
      (λ (w : Server). w.deletes)
      (λ request w. refl)
      (map request_of addresses)
      fresh
      (delete_records libraries tenths network
        (some client)
        CompletionMode.wait_until_applied
        addresses
        fresh)
delete_records-Delivered_example =
    delete_records-Delivered libraries tenths network (λ (w : Server). w.deletes)
      (λ request w. refl) client CompletionMode.wait_until_applied addresses fresh usable

read_operations_with_retry-calls_example :
    Counts.calls counts
      (read_operations_with_retry libraries tenths network policy requests fresh).1
    ≤ Counts.calls counts fresh + 3
read_operations_with_retry-calls_example =
    read_operations_with_retry-calls libraries tenths network counts policy requests fresh

new_client_config-IsUsable_example : IsUsable config
new_client_config-IsUsable_example = new_client_config-IsUsable options new_client_config-options

abbrev merged : List ℕ → WriteOperation
merged segment = merge_operation (address segment) (record {
  incoming = record { encoding = DocumentEncoding.json; payload = codes "{}" };
  program = record { source = codes "return"; sha256 = codes "return" };
})

abbrev merge_twice : List WriteOperation
merge_twice = merged (codes "a") ∷ upsert (codes "b") ∷ merged (codes "c") ∷ []

programs_once :
    lua_programs [] merge_twice ≡ record { source = codes "return"; sha256 = codes "return" } ∷ []
unfolding lua_programs contains
programs_once = refl

-- The stub, keeping the write requests.
abbrev recording : Network tenths
recording = record {
  World = List Proto.WriteRequest;
  read = λ request w. (err unavailable_status, w);
  write = λ request w. ((Network.write network request fresh).0, w ++ request ∷ []);
  delete = λ request w. (err unavailable_status, w);
  execute = λ request w. (err unavailable_status, w);
  query = λ request w. (err unavailable_status, w);
  count = λ request w. (err unavailable_status, w);
  scan = λ request w. (err unavailable_status, w);
  check = λ w. (ok (some true), w);
  sleep = λ d w. (false, w);
  is_done = λ w. false;
  with_timeout = λ d w. w;
  cancel = λ w. w;
  random = λ w. (5, w);
}

write_records-Declares_example :
    Sent libraries tenths recording
      (λ w. w)
      (λ request w. refl)
      CompletionMode.return_after_accepted
      2
      []
      (write_records libraries tenths recording
        (some client)
        CompletionMode.return_after_accepted
        merge_twice
        []).2
write_records-Declares_example =
    write_records-Declares libraries tenths recording (λ w. w) (λ request w. refl) client
      CompletionMode.return_after_accepted merge_twice [] usable

-- Both requests declare the program of their merge.
both_requests :
    map {B = ℕ × ℕ}
      (λ (r : Proto.WriteRequest). (length r.operations, length r.lua_programs))
      (write_records libraries tenths recording
        (some client)
        CompletionMode.return_after_accepted
        merge_twice
        []).2
    ≡ (2, 1) ∷ (1, 1) ∷ []
unfolding new_address validate_address address_to_proto operation_to_proto document_to_proto
    validate_operation validate_document validate_payload write_records validate_collection
    valid_completion_mode validate_writes write_batches write_batch write_reply write_request
    lua_programs check_documents run_batches on_batch decode_items decode_write_response decode_loop
    validate_result_index write_result write_document write_failure revision_from_proto parse
    valid_store valid_segment valid_store_bytes parse_segment parse_segments parse_path parse_parts
    path_escape path_unescape should_escape upper_hex escape_byte unhex hex_pair cut cut_prefix
    split valid_string first feed at_boundary run validate_program from_uri validate_json trim_space
both_requests = refl
