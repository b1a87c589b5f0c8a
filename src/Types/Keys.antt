-- ===== src/Types/Keys.antt =====
-- types.go: record keys and addresses.
pub mod Injective
use sink_go.Base.{
  Bool, true, false, ◌&&◌, [], ◌++◌, Bytes, codes, is_empty, ℤ, pos, Result, ok, err, ◌>>=◌, ◌>>◌,
  fail_if, if◌then◌else◌,
}
use sink_go.Errors.{Error, new, uri}
use sink_go.Uri.Address.{UriError, parse, Address as UriAddress}
use sink_go.Uri.Decimal.{put_uint64, to_uint64}
use sink_go.Uri.Key as UriKey
use sink_go.Uri.Key.{append_key}

pub data KeyKind : Type 0 where
  unspecified string int64 bytes opaque : KeyKind

pub record Key : Type 0 where
  pub kind : KeyKind
  pub string_value : Bytes
  pub int64_value : ℤ
  pub bytes_value : Bytes
  pub opaque_type : Bytes

-- Go's zero value.
abbrev pub zero_key : Key
zero_key = record {
  kind = KeyKind.unspecified;
  string_value = [];
  int64_value = pos 0;
  bytes_value = [];
  opaque_type = [];
}

abbrev pub string_key : Bytes → Key
string_key value = record zero_key { kind = KeyKind.string; string_value = value }

abbrev pub int64_key : ℤ → Key
int64_key value = record zero_key { kind = KeyKind.int64; int64_value = value }

abbrev pub bytes_key : Bytes → Key
bytes_key value = record zero_key { kind = KeyKind.bytes; bytes_value = value }

unfoldable pub opaque_key : Bytes → Bytes → Result Error Key
opaque_key type_name value =
    if is_empty type_name
    then err (new "opaque key type is required")
    else ok
        (record zero_key { kind = KeyKind.opaque; bytes_value = value; opaque_type = type_name })

is_unspecified : KeyKind → Bool
is_unspecified KeyKind.unspecified = true
is_unspecified _ = false

is_opaque : KeyKind → Bool
is_opaque KeyKind.opaque = true
is_opaque _ = false

-- `Key.validate`
unfoldable pub validate_key : Key → Result Error (Unit {0})
unfolding is_unspecified is_opaque
validate_key k = do
  fail_if (is_unspecified k.kind) (new "record key is required")
  fail_if (is_opaque k.kind && is_empty k.opaque_type) (new "opaque key type is required")
  ok tt

uri_key_of : KeyKind → Key → UriKey.Key
uri_key_of KeyKind.unspecified k = record { kind = []; content = [] }
uri_key_of KeyKind.string k = record { kind = codes "string"; content = k.string_value }
uri_key_of KeyKind.int64 k = record {
  kind = codes "int64";
  content = put_uint64 8 (to_uint64 k.int64_value) [];
}
uri_key_of KeyKind.bytes k = record { kind = codes "bytes"; content = k.bytes_value }
uri_key_of KeyKind.opaque k = record {
  kind = codes "opaque:" ++ k.opaque_type;
  content = k.bytes_value;
}

unfoldable pub uri_key : Key → UriKey.Key
unfolding uri_key_of
uri_key k = uri_key_of k.kind k

unfoldable pub from_uri {ℓ} : {A : Type ℓ} → Result UriError A → Result Error A
from_uri (ok a) = ok a
from_uri (err e) = err (uri e)

pub record Address : Type 0 where
  pub value : UriAddress

-- `NewAddress`; the address that comes with an error is read by no caller.
unfoldable pub new_address : Bytes → Result Error Address
new_address value = do
  parsed ← from_uri (parse value)
  fail_if (is_empty parsed.segments) (new "record URI requires a resource path")
  ok (record { value = parsed })

unfoldable pub new_record_address : Bytes → Key → Result Error Address
new_record_address resource key = do
  validate_key key
  parsed ← from_uri (append_key resource (uri_key key))
  ok (record { value = parsed })

-- `Address.validate`: the address parses again.
unfoldable pub validate_address : Address → Result Error (Unit {0})
validate_address a = do parsed ← new_address a.value.value; ok tt
