-- ===== src/Examples/Stub.antt =====
-- A server that counts the reads and logs the writes and deletes, libraries that take every value
-- for bytes, and numbers in tenths.
use sink_go.Base.{
  ℕ, suc, ◌+◌, ◌-◌, ◌*◌, ◌/◌, ◌≡◌, refl, true, false, Option, none, some, List, [], ◌∷◌, ◌++◌, ltb,
  leb, ◌==◌, if◌then◌else◌, Bytes, codes, pos, ok, err,
}
use sink_go.Client.Config.{to_count, ClientOptions, ClientConfig, Client, new_client_config}
use sink_go.Client.Backoff.{RetryPolicy, normalize_retry_policy}
use sink_go.Client.Config.Usable.{IsUsable, new_client_config-IsUsable}
use sink_go.Client.Reads.Attempts.{Counts}
use sink_go.Errors.{Status, error_info, unavailable, resource_exhausted}
use sink_go.Floats.{Floats}
use sink_go.Libraries.{Libraries}
use sink_go.Native.Scan.Attempts.{ScanCounts}
use sink_go.Network.{Network}
use sink_go.Proto as Proto
use sink_go.Proto.Enums.{ReadStatus, WriteStatus, DeleteStatus, DocumentEncoding}
use sink_go.Types.Keys.{Address}

abbrev joined_fields : List (Bytes × Bytes) → Bytes
joined_fields [] = []
joined_fields ((name, value) ∷ fields) = name ++ value ++ joined_fields fields

abbrev pub libraries : Libraries
libraries = record {
  Value = Bytes;
  json_marshal = ok;
  bson_marshal = ok;
  json_unmarshal = ok;
  bson_unmarshal = ok;
  json_valid = λ s. true;
  bson_validate = λ s. none;
  sha256_sum = λ s. s;
  parse_media_type = ok;
  is_nil = λ v. false;
  is_map = λ v. false;
  text_value = λ s. s;
  ordered_document = joined_fields;
}

abbrev pub tenths : Floats
tenths = record {
  Float = ℕ;
  zero = 0;
  one = 10;
  two = 20;
  one_fifth = 2;
  lt = ltb;
  le = leb;
  eq = λ a b. a == b;
  add = λ a b. a + b;
  sub = λ a b. a - b;
  mul = λ a b. a * b / 10;
  div = λ a b. a * 10 / b;
  from_int = λ z. to_count z * 10;
  to_int = λ a. pos (a / 10);
}

pub record Server : Type 0 where
  pub reads : ℕ
  pub scans : ℕ
  pub writes : List Proto.WriteOperation
  pub deletes : List Proto.DeleteOperation

abbrev pub fresh : Server
fresh = record { reads = 0; scans = 0; writes = []; deletes = [] }

abbrev not_found_from : ℕ → List Proto.ReadOperation → List (Option Proto.ReadResult)
not_found_from index [] = []
not_found_from index (o ∷ operations) =
    some (record {
      operation_index = index;
      status = ReadStatus.not_found;
      document = none;
      revision = none;
      failure = none;
    })
    ∷ not_found_from (suc index) operations

abbrev applied_from : ℕ → List Proto.WriteOperation → List (Option Proto.WriteResult)
applied_from index [] = []
applied_from index (o ∷ operations) =
    some (record {
      operation_index = index;
      status = WriteStatus.applied;
      revision = none;
      failure = none;
      document = none;
    })
    ∷ applied_from (suc index) operations

abbrev deleted_from : ℕ → List Proto.DeleteOperation → List (Option Proto.DeleteResult)
deleted_from index [] = []
deleted_from index (o ∷ operations) =
    some (record { operation_index = index; status = DeleteStatus.applied; failure = none })
    ∷ deleted_from (suc index) operations

abbrev pub unavailable_status : Status
unavailable_status = record { code = unavailable; details = [] }

abbrev rejected_status : Status
rejected_status = record {
  code = resource_exhausted;
  details = error_info (codes "sink") (codes "SCAN_ADMISSION_REJECTED") ∷ [];
}

abbrev pub page_document : Proto.Document
page_document = record { encoding = DocumentEncoding.bson; payload = 5 ∷ 0 ∷ 0 ∷ 0 ∷ 0 ∷ [] }

-- The first scan is rejected, and the first read finds the server unavailable.
abbrev pub network : Network tenths
network = record {
  World = Server;
  read = λ request w. (
    if w.reads == 0
        then err unavailable_status
        else ok (some (record { results = not_found_from 0 request.operations })),
    record w { reads = w.reads + 1 },
  );
  write = λ request w. (
    ok (some (record { results = applied_from 0 request.operations })),
    record w { writes = w.writes ++ request.operations },
  );
  delete = λ request w. (
    ok (some (record { results = deleted_from 0 request.operations })),
    record w { deletes = w.deletes ++ request.operations },
  );
  execute = λ request w. (err unavailable_status, w);
  query =
      λ request w. (ok (some (record { documents = some page_document ∷ []; has_more = true })), w);
  count = λ request w. (err unavailable_status, w);
  scan = λ request w. (
    if w.scans == 0
        then err rejected_status
        else ok (some (record { documents = some page_document ∷ []; next_cursor = [] })),
    record w { scans = w.scans + 1 },
  );
  check = λ w. (ok (some true), w);
  sleep = λ d w. (false, w);
  is_done = λ w. false;
  with_timeout = λ d w. w;
  cancel = λ w. w;
  random = λ w. (5, w);
}

pub counts : Counts tenths network
counts = record {
  calls = λ (w : Server). w.reads;
  counted = λ request w. refl;
  quiet_sleep = λ d w. refl;
  quiet_random = λ w. refl;
}

pub scan_counts : ScanCounts tenths network
scan_counts = record {
  calls = λ (w : Server). w.scans;
  counted = λ request w. refl;
  quiet_sleep = λ d w. refl;
  quiet_random = λ w. refl;
  quiet_timeout = λ d w. refl;
  quiet_cancel = λ w. refl;
}

abbrev zero_policy : RetryPolicy tenths
zero_policy = record {
  max_attempts = pos 0;
  initial_backoff = pos 0;
  max_backoff = pos 0;
  multiplier = 0;
  jitter = 0;
}

-- Batches of two, and the defaults otherwise.
abbrev pub options : ClientOptions tenths
options = record {
  max_operations = pos 2;
  read_retry = zero_policy;
  scan_retry = zero_policy;
  scan_timeout = pos 0;
  max_receive_message_bytes = pos 0;
  max_send_message_bytes = pos 0;
}

abbrev pub policy : RetryPolicy tenths
policy = record {
  max_attempts = pos 3;
  initial_backoff = pos 100000000;
  max_backoff = pos 1000000000;
  multiplier = 20;
  jitter = 2;
}

abbrev pub config : ClientConfig tenths
config = record {
  max_operations = pos 2;
  read_retry = policy;
  scan_retry = policy;
  scan_timeout = pos 30000000000;
  max_receive_bytes = pos 67108864;
  max_send_bytes = pos 67108864;
}

pub new_client_config-options : new_client_config options ≡ ok config
unfolding new_client_config normalize_retry_policy
new_client_config-options = refl

pub usable : IsUsable config
usable = new_client_config-IsUsable options new_client_config-options

abbrev pub client : Client tenths
client = record { config = config; owns_connection = false }

abbrev pub address : Bytes → Address
address segment = record {
  value = record {
    value = codes "sink://m/" ++ segment;
    store = codes "m";
    segments = segment ∷ [];
  };
}

abbrev pub addresses : List Address
addresses = address (codes "a") ∷ address (codes "b") ∷ address (codes "c") ∷ []
