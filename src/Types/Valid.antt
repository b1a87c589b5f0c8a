-- ===== src/Types/Valid.antt =====
-- types.go: what the constructors make passes the checks that the client repeats.
use sink_go.Base.{
  Bool, ◌≡◌, refl, ap, subst, ◌∙◌, Bool, false, List, [], ◌∷◌, ◌++◌, Bytes, IsBytes, is_empty, ok,
  fail_if, >>=-eq-ok, ok_eq,
}
use sink_go.Libraries.{Libraries}
use sink_go.Proto.Enums.{WriteMode, invalid_write_mode}
use sink_go.Types.Documents.{Document, validate_document}
use sink_go.Types.Keys.Injective.{from_uri-eq-ok}
use sink_go.Types.Keys.{
  Address, Key, new_address, new_record_address, validate_address, validate_key, uri_key, from_uri,
}
use sink_go.Types.Operations.{WriteOperation, new_put, new_merge, validate_operation}
use sink_go.Types.Programs.{LuaProgram, validate_program}
use sink_go.Uri.Address.{parse, Address as UriAddress}
use sink_go.Uri.Address.Canonical.{parse-IsCanonical}
use sink_go.Uri.Key as UriKey
use sink_go.Uri.Key.{append_key, format_key}
use sink_go.Uri.Key.Append.{append_key_lem}

-- A text that parses to an address with a path makes a valid record address.
parse-validates :
    (value : Bytes) (a : UriAddress)
    → parse value ≡ ok a
    → is_empty a.segments ≡ false
    → validate_address (record { value = a }) ≡ ok tt
unfolding validate_address new_address from_uri
parse-validates value a h path =
    let again : parse a.value ≡ ok a = ap parse (parse-IsCanonical value h).0 ∙ h in
    rw again (rw path)

snoc_not_empty {ℓ} : {A : Type ℓ} (xs : List A) (x : A) → is_empty (xs ++ x ∷ []) ≡ false
snoc_not_empty [] x = refl
snoc_not_empty (y ∷ xs) x = refl

append_key-parses :
    (resource : Bytes) (key : UriKey.Key) {a : UriAddress}
    → IsBytes resource
    → IsBytes key.content
    → append_key resource key ≡ ok a
    → (text : Bytes) × (parse text ≡ ok a) × (is_empty a.segments ≡ false)
unfolding append_key
append_key-parses resource key {a} br bk h =
    let (base, s, hb, hs, store, segments) = append_key_lem resource key br bk h in
    let (base', hb', h') = >>=-eq-ok (parse resource) _ h in
    let (s', hs', h'') = >>=-eq-ok (format_key key) _ h' in
    (_, h'', ap is_empty segments ∙ snoc_not_empty base.segments s)

-- An address that `NewRecordAddress` makes of a resource and a key of bytes passes the check of an
-- address.
pub new_record_address-validates :
    (resource : Bytes) (k : Key) {a : Address}
    → IsBytes resource
    → IsBytes (uri_key k).content
    → new_record_address resource k ≡ ok a
    → validate_address a ≡ ok tt
unfolding new_record_address
new_record_address-validates resource k {a} br bk h =
    let (u, hv, h') = >>=-eq-ok (validate_key k) _ h in
    let (parsed, hp, e) = >>=-eq-ok (from_uri (append_key resource (uri_key k))) _ h' in
    let (text, ht, path) =
      append_key-parses resource (uri_key k) br bk
        (from_uri-eq-ok (append_key resource (uri_key k)) hp) in
    subst (λ (x : Address). validate_address x ≡ ok tt) (ok_eq e)
      (parse-validates text parsed ht path)

-- The client's own check of an operation passes.
abbrev pub IsValid : Libraries → WriteOperation → Type 0
IsValid lib o = validate_operation lib o ≡ ok tt

module _ (lib : Libraries) where
  pub new_put-IsValid :
      (a : Address) (d : Document) (mode : WriteMode) (b : Bool) {o : WriteOperation}
      → new_put lib a d mode ≡ ok o
      → IsValid lib (record o { return_document = b })
  unfolding new_put validate_operation
  new_put-IsValid a d mode b h =
      let (u, ha, h1) = >>=-eq-ok (validate_address a) _ h in
      let (u', hd, h2) = >>=-eq-ok (validate_document lib d) _ h1 in
      let (u'', hm, e) = >>=-eq-ok (fail_if (invalid_write_mode mode) _) _ h2 in
      subst (λ (x : WriteOperation). IsValid lib (record x { return_document = b })) (ok_eq e)
        (rw ha (rw hd (rw hm)))

  pub new_merge-IsValid :
      (a : Address) (d : Document) (p : LuaProgram) (b : Bool) {o : WriteOperation}
      → new_merge lib a (record { incoming = d; program = p }) ≡ ok o
      → IsValid lib (record o { return_document = b })
  unfolding new_merge validate_operation
  new_merge-IsValid a d p b h =
      let (u, ha, h1) = >>=-eq-ok (validate_address a) _ h in
      let (u', hd, h2) = >>=-eq-ok (validate_document lib d) _ h1 in
      let (u'', hp, e) = >>=-eq-ok (validate_program lib p) _ h2 in
      subst (λ (x : WriteOperation). IsValid lib (record x { return_document = b })) (ok_eq e)
        (rw ha (rw hd (rw hp)))
