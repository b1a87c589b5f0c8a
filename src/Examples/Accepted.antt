-- ===== src/Examples/Accepted.antt =====
-- dataset.go and types.go: what a dataset builds, and the client's checks of it.
use sink_go.Base.{
  are_bytes-IsBytes, ◌≡◌, refl, true, some, List, [], ◌∷◌, arith, length, Bytes, IsBytes, codes, ok,
}
use sink_go.Client.Reads.{read_batches, read_records}
use sink_go.Client.Writes.{write_batches, write_records}
use sink_go.Client.Config.{valid_completion_mode}
use sink_go.Dataset.{
  Dataset, DatasetRecord, key_addresses, put_operations, merge_operations, put_record, merge_record,
  record_operations, encode_record, validate_dataset,
}
use sink_go.Dataset.Accepted.{read_of, put_operations-accepted, key_addresses-accepted}
use sink_go.Examples.Stub.{libraries, tenths, network, fresh, client}
use sink_go.Proto.Enums.{CompletionMode, DocumentEncoding, WriteMode}
use sink_go.Types.Documents.{
  Document, new_document, new_raw_document, encode_value, validate_document, validate_payload,
}
use sink_go.Types.Keys.{
  Address, Key, string_key, new_address, new_record_address, validate_key, uri_key, from_uri,
  validate_address,
}
use sink_go.Types.Operations.{WriteOperation, put_operation, merge_operation, new_put, new_merge}
use sink_go.Types.Programs.{LuaProgram, validate_program}
use sink_go.Types.Keys.Injective.{IsMade, new_record_address_injective}
use sink_go.Types.Valid.{new_record_address-validates}
use sink_go.Uri.Address.{
  parse, valid_store, valid_segment, valid_store_bytes, parse_segment, parse_segments, parse_path,
  parse_parts,
}
use sink_go.Uri.Escape.{
  path_escape, path_unescape, should_escape, upper_hex, escape_byte, unhex, hex_pair,
}
use sink_go.Uri.Key.{append_key, format_key}
use sink_go.Uri.Text.{cut, cut_prefix, split}
use sink_go.Uri.Utf8.{valid_string, first, feed, at_boundary, run}

abbrev uri : Bytes
uri = codes "sink://m/t"

uri-IsBytes : IsBytes uri
uri-IsBytes = are_bytes-IsBytes uri refl

abbrev key : Key
key = string_key (codes "a")

key-IsBytes : IsBytes (uri_key key).content
unfolding uri_key
key-IsBytes = (omega arith, tt)

abbrev record_address : Address
record_address = record {
  value = record {
    value = codes "sink://m/t/s:a";
    store = codes "m";
    segments = codes "t" ∷ codes "s:a" ∷ [];
  };
}

new_record_address-key : new_record_address uri key ≡ ok record_address
unfolding new_record_address validate_key uri_key append_key format_key from_uri parse valid_store
    valid_segment valid_store_bytes parse_segment parse_segments parse_path parse_parts path_escape
    path_unescape should_escape upper_hex escape_byte unhex hex_pair cut cut_prefix split
    valid_string first feed at_boundary run
new_record_address-key = refl

new_record_address-validates_example : validate_address record_address ≡ ok tt
new_record_address-validates_example =
    new_record_address-validates uri key uri-IsBytes key-IsBytes new_record_address-key

new_record_address_injective_example : (uri ≡ uri) × (key ≡ key)
new_record_address_injective_example =
    new_record_address_injective uri uri key key uri-IsBytes uri-IsBytes
      (IsMade.string (codes "a") (are_bytes-IsBytes (codes "a") refl))
      (IsMade.string (codes "a") (are_bytes-IsBytes (codes "a") refl)) new_record_address-key
      new_record_address-key refl refl

abbrev payload : Bytes
payload = 5 ∷ 0 ∷ 0 ∷ 0 ∷ 0 ∷ []

abbrev program : LuaProgram
program = record { source = codes "return new"; sha256 = codes "return new" }

abbrev users : Dataset tenths
users = record {
  client = client;
  uri = uri;
  encoding = DocumentEncoding.bson;
  merge_program = some program;
}

abbrev records : List (DatasetRecord libraries)
records = record { key = key; value = payload; return_document = true } ∷ []

abbrev document : Document
document = record { encoding = DocumentEncoding.bson; payload = payload }

abbrev puts : List WriteOperation
puts =
    record (put_operation record_address document WriteMode.upsert) { return_document = true } ∷ []

put_operations-records :
    put_operations libraries tenths (some users) WriteMode.upsert "upsert" records
    ≡ ok (users, puts)
unfolding put_operations validate_dataset record_operations put_record encode_record new_put
    new_document encode_value new_raw_document validate_document validate_payload validate_address
    new_address new_record_address validate_key uri_key append_key format_key from_uri parse
    valid_store valid_segment valid_store_bytes parse_segment parse_segments parse_path parse_parts
    path_escape path_unescape should_escape upper_hex escape_byte unhex hex_pair cut cut_prefix
    split valid_string first feed at_boundary run
put_operations-records = refl

is-known : valid_completion_mode CompletionMode.wait_until_applied ≡ true
unfolding valid_completion_mode
is-known = refl

put_operations-accepted_example :
    (write_records libraries tenths network
        (some client)
        CompletionMode.wait_until_applied
        puts
        fresh
      ≡ write_batches libraries tenths network client.config CompletionMode.wait_until_applied puts
          fresh)
    × (length puts ≡ length records)
put_operations-accepted_example =
    put_operations-accepted libraries tenths network (some users) WriteMode.upsert "upsert" records
      CompletionMode.wait_until_applied fresh users puts put_operations-records (omega arith)
      is-known refl

abbrev merges : List WriteOperation
merges =
    record (merge_operation record_address (record { incoming = document; program = program })) {
      return_document = true;
    }
    ∷ []

merge_operations-records :
    merge_operations libraries tenths (some users) records ≡ ok (users, merges)
unfolding merge_operations validate_program validate_dataset record_operations merge_record
    encode_record new_merge new_document encode_value new_raw_document validate_document
    validate_payload validate_address new_address new_record_address validate_key uri_key append_key
    format_key from_uri parse valid_store valid_segment valid_store_bytes parse_segment
    parse_segments parse_path parse_parts path_escape path_unescape should_escape upper_hex
    escape_byte unhex hex_pair cut cut_prefix split valid_string first feed at_boundary run
merge_operations-records = refl

key_addresses-keys : key_addresses libraries tenths uri 0 (key ∷ []) ≡ ok (record_address ∷ [])
unfolding key_addresses new_record_address validate_key uri_key append_key format_key from_uri parse
    valid_store valid_segment valid_store_bytes parse_segment parse_segments parse_path parse_parts
    path_escape path_unescape should_escape upper_hex escape_byte unhex hex_pair cut cut_prefix
    split valid_string first feed at_boundary run
key_addresses-keys = refl

key_addresses-accepted_example :
    read_records libraries tenths network (some client) (record_address ∷ []) fresh
    ≡ read_batches libraries tenths network client.config (read_of record_address ∷ []) fresh
key_addresses-accepted_example =
    key_addresses-accepted libraries tenths network client uri (key ∷ []) fresh
      (record_address ∷ []) uri-IsBytes (key-IsBytes, tt) key_addresses-keys (omega arith)
