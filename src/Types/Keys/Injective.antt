-- ===== src/Types/Keys/Injective.antt =====
-- types.go: no two keys have the same address.
use sink_go.Base.{
  ◌≡◌, ◌<◌, pos, negsuc, refl, sym, ap, ◌∙◌, arith, Bytes, u64_mod, IsBytes, are_bytes-IsBytes,
  bytes_eq, codes, drop, All-append, ℤ, Result, ok, err, >>=-eq-ok, ok_eq, if◌then◌else◌,
}
use sink_go.Types.Keys.{
  Key, KeyKind, zero_key, string_key, int64_key, bytes_key, Address, validate_key, uri_key_of,
  uri_key, from_uri, new_record_address,
}
use sink_go.Uri.Address.{UriError}
use sink_go.Uri.Decimal.{
  IsInt64, to_uint64, uint64, to_int64, to_int64-to_uint64, uint64-put_uint64, put_uint64-shape,
}
use sink_go.Uri.Key as UriKey
use sink_go.Uri.Key.{append_key}
use sink_go.Uri.Key.Append.{append_key_injective}

abbrev pub opaque_of : Bytes → Bytes → Key
opaque_of type_name value = record zero_key {
  kind = KeyKind.opaque;
  bytes_value = value;
  opaque_type = type_name;
}

-- The keys that the constructors make of Go's strings, byte slices and int64 values.
pub data IsMade : Key → Type 0 where
  string : (s : Bytes) → IsBytes s → IsMade (string_key s)
  int64 : (z : ℤ) → IsInt64 z → IsMade (int64_key z)
  bytes : (s : Bytes) → IsBytes s → IsMade (bytes_key s)
  opaque : (t s : Bytes) → IsBytes t → IsBytes s → IsMade (opaque_of t s)

-- Reads a key of package uri back.
key_of : UriKey.Key → Key
key_of u =
    if bytes_eq u.kind (codes "string")
    then string_key u.content
    else if bytes_eq u.kind (codes "int64")
    then int64_key (to_int64 (uint64 u.content 0))
    else if bytes_eq u.kind (codes "bytes")
    then bytes_key u.content
    else opaque_of (drop 7 u.kind) u.content

to_uint64-lt : (z : ℤ) → IsInt64 z → to_uint64 z < u64_mod
unfolding to_uint64
to_uint64-lt (pos n) h = omega arith
to_uint64-lt (negsuc n) h = omega arith

key_of-uri_key : {k : Key} → IsMade k → key_of (uri_key k) ≡ k
unfolding key_of uri_key uri_key_of
key_of-uri_key (IsMade.string s h) = refl
key_of-uri_key (IsMade.int64 z h) =
    ap int64_key
      (ap to_int64 (uint64-put_uint64 (to_uint64 z) (to_uint64-lt z h)) ∙ to_int64-to_uint64 z h)
key_of-uri_key (IsMade.bytes s h) = refl
key_of-uri_key (IsMade.opaque t s ht h) = refl

uri_key-IsBytes : {k : Key} → IsMade k → IsBytes (uri_key k).kind × IsBytes (uri_key k).content
unfolding uri_key uri_key_of
uri_key-IsBytes (IsMade.string s h) = (are_bytes-IsBytes (codes "string") refl, h)
uri_key-IsBytes (IsMade.int64 z h) =
    (are_bytes-IsBytes (codes "int64") refl, (put_uint64-shape (to_uint64 z)).1)
uri_key-IsBytes (IsMade.bytes s h) = (are_bytes-IsBytes (codes "bytes") refl, h)
uri_key-IsBytes (IsMade.opaque t s ht h) =
    (All-append (λ c. c < 256) (codes "opaque:") t (are_bytes-IsBytes (codes "opaque:") refl) ht, h)

pub from_uri-eq-ok {ℓ} : {A : Type ℓ} (r : Result UriError A) {a : A} → from_uri r ≡ ok a → r ≡ ok a
unfolding from_uri
from_uri-eq-ok (ok a) h = ap ok (ok_eq h)
from_uri-eq-ok (err e) h = absurd (cc)

new_record_address-append :
    (resource : Bytes) (k : Key) {a : Address}
    → new_record_address resource k ≡ ok a
    → append_key resource (uri_key k) ≡ ok a.value
unfolding new_record_address from_uri
new_record_address-append resource k {a} h =
    let (u, hv, h') = >>=-eq-ok (validate_key k) _ h in
    let (parsed, hp, e) = >>=-eq-ok (from_uri (append_key resource (uri_key k))) _ h' in
    from_uri-eq-ok (append_key resource (uri_key k)) hp ∙ ap (λ (x : Address). ok x.value) (ok_eq e)

-- If `NewRecordAddress` on two resources of bytes and two keys that the constructors make, of
-- bytes and of int64 values, gives addresses with the same store and the same segments, then the
-- resources and the keys are the same, the kinds of the keys included.
pub new_record_address_injective :
    (r q : Bytes) (k j : Key) {a b : Address}
    → IsBytes r
    → IsBytes q
    → IsMade k
    → IsMade j
    → new_record_address r k ≡ ok a
    → new_record_address q j ≡ ok b
    → a.value.store ≡ b.value.store
    → a.value.segments ≡ b.value.segments
    → (r ≡ q) × (k ≡ j)
new_record_address_injective r q k j br bq mk mj h h' store segments =
    let (kk, kc) = uri_key-IsBytes mk in
    let (jk, jc) = uri_key-IsBytes mj in
    let (resources, keys) =
      append_key_injective r q (uri_key k) (uri_key j) br bq kk kc jk jc
        (new_record_address-append r k h) (new_record_address-append q j h') store segments in
    (resources, sym (key_of-uri_key mk) ∙ ap key_of keys ∙ key_of-uri_key mj)
