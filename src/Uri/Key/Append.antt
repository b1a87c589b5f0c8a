-- ===== src/Uri/Key/Append.antt =====
-- uri/address.go: the addresses that `AppendKey` makes.
use sink_go.Base.{
  ◌≤◌, ◌≡◌, refl, sym, ap, ◌∙◌, subst, List, [], ◌∷◌, ◌++◌, append_assoc, map, map-append, arith,
  Bytes, IsBytes, All-append, length, ok, >>=-eq-ok, ok_eq,
}
use sink_go.Uri.Escape.{path_escape}
use sink_go.Uri.Text.{join, join-snoc}
use sink_go.Uri.Address.{Address, slash, max_address_bytes, parse}
use sink_go.Uri.Address.Canonical.{
  render, parse-IsCanonical, parse-render, parse-IsBytes, parse_injective,
}
use sink_go.Uri.Key.{Key, format_key, append_key}
use sink_go.Uri.Key.Forms.{format_key-Form, Form-IsSegment, Form-IsBytes}
use sink_go.Uri.Key.RoundTrip.{format_key_injective}

render-snoc :
    (store : Bytes) (segments : List Bytes) (s : Bytes)
    → render store (segments ++ s ∷ []) ≡ render store segments ++ slash ∷ path_escape s
render-snoc store [] s = unfold join in refl
render-snoc store (t ∷ segments) s = simp (
  map-append,
  join-snoc slash (map path_escape (t ∷ segments)) (path_escape s) (cc),
  append_assoc,
)

-- What an appended address is made of.
record Extends (resource segment : Bytes) (a : Address) : Type 0 where
  base : Address
  parsed : parse resource ≡ ok base
  same_store : a.store ≡ base.store
  added : a.segments ≡ base.segments ++ segment ∷ []

append_key-Extends :
    (resource : Bytes) (key : Key) {a : Address}
    → IsBytes resource
    → IsBytes key.content
    → append_key resource key ≡ ok a
    → (s : Bytes) × (format_key key ≡ ok s) × Extends resource s a
unfolding append_key
append_key-Extends resource key {a} br bk h =
    let (base, hb, h') = >>=-eq-ok (parse resource) _ h in
    let (s, hs, h'') = >>=-eq-ok (format_key key) _ h' in
    let (kept, canonical) = parse-IsCanonical resource hb in
    let form = format_key-Form key hs in
    let (kept_a, canonical_a) = parse-IsCanonical _ h'' in
    let segments = base.segments ++ s ∷ [] in
    let spelled : base.value ++ slash ∷ path_escape s ≡ render base.store segments =
      ap (λ v. v ++ slash ∷ path_escape s) canonical.spelled
      ∙ sym (render-snoc base.store base.segments s) in
    let fits = subst (λ v. length v ≤ max_address_bytes) (kept_a ∙ spelled) canonical_a.bounded in
    let read =
      parse-render base.store segments canonical.store_valid
        (All-append _ base.segments (s ∷ []) (parse-IsBytes resource hb br)
          (Form-IsBytes form bk, tt))
        (All-append _ base.segments (s ∷ []) canonical.segments_valid (Form-IsSegment form, tt))
        fits in
    let same = ok_eq (sym h'' ∙ ap parse spelled ∙ read) in
    (
      s,
      hs,
      record {
        base = base;
        parsed = hb;
        same_store = ap (λ (x : Address). x.store) same;
        added = ap (λ (x : Address). x.segments) same;
      },
    )

-- If `AppendKey` accepts a resource and a key of bytes, then the resource parses, the key prints,
-- and the address has the store of the resource and its segments followed by the print of the key.
pub append_key_lem :
    (resource : Bytes) (key : Key) {a : Address}
    → IsBytes resource
    → IsBytes key.content
    → append_key resource key ≡ ok a
    → (base : Address) × (s : Bytes) × (parse resource ≡ ok base)
      × (format_key key ≡ ok s)
      × (a.store ≡ base.store)
      × (a.segments ≡ base.segments ++ s ∷ [])
append_key_lem resource key br bk h =
    let (s, hs, e) = append_key-Extends resource key br bk h in
    (e.base, s, e.parsed, hs, e.same_store, e.added)

snoc_injective :
    (xs ys : List Bytes) (x y : Bytes) → xs ++ x ∷ [] ≡ ys ++ y ∷ [] → (xs ≡ ys) × (x ≡ y)
snoc_injective [] [] x y h = (refl, cc)
snoc_injective [] (b ∷ []) x y h = ground arith
snoc_injective [] (b ∷ c ∷ ys) x y h = ground arith
snoc_injective (a ∷ []) [] x y h = ground arith
snoc_injective (a ∷ c ∷ xs) [] x y h = ground arith
snoc_injective (a ∷ xs) (b ∷ ys) x y h =
    let t : xs ++ x ∷ [] ≡ ys ++ y ∷ [] = cc in
    let (e, e') = snoc_injective xs ys x y t in let heads : a ≡ b = cc in (cc, e')

-- If `AppendKey` on two resources and keys, all of them bytes, gives addresses with the same store
-- and the same segments, then the resources and the keys are the same, the types of the keys
-- included.
pub append_key_injective :
    (r q : Bytes) (k j : Key) {a b : Address}
    → IsBytes r
    → IsBytes q
    → IsBytes k.kind
    → IsBytes k.content
    → IsBytes j.kind
    → IsBytes j.content
    → append_key r k ≡ ok a
    → append_key q j ≡ ok b
    → a.store ≡ b.store
    → a.segments ≡ b.segments
    → (r ≡ q) × (k ≡ j)
append_key_injective r q k j {a} {b} br bq kk kc jk jc h h' store segments =
    let (s, hs, e) = append_key-Extends r k br kc h in
    let (t, ht, f) = append_key-Extends q j bq jc h' in
    let (bases, texts) =
      snoc_injective e.base.segments f.base.segments s t (sym e.added ∙ segments ∙ f.added) in
    let stores = sym e.same_store ∙ store ∙ f.same_store in
    (
      parse_injective r q e.parsed f.parsed stores bases,
      format_key_injective k j kk kc jk jc hs (ht ∙ ap ok (sym texts)),
    )
