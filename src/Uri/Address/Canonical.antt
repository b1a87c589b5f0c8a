-- ===== src/Uri/Address/Canonical.antt =====
-- uri/address.go: the texts that `Parse` accepts, and their spelling.
use sink_go.Base.{
  ◌≤◌, ◌≡◌, ◌≢◌, refl, sym, ap, subst, ◌∙◌, Bool, true, false, not, List, [], ◌∷◌, ◌++◌, map, arith,
  Bytes, IsBytes, All, ok, Bool-cases, inl, inr, >>=-eq-ok, ok_eq, All-append_right, fail_if-eq-ok,
  or_err-eq-ok, length, is_empty, ltb, not_ltb→le, le→not_ltb, if◌then◌else◌, fail_if, or_err,
}
use sink_go.Uri.Escape.{path_escape}
use sink_go.Uri.Text.{
  cut, cut_at, cut_whole, cut_prefix, cut_prefix_eq, uncut, uncut-cut, split, split-ne-nil,
  split-IsBytes, cut-IsBytes, join, join-split, split-join,
}
use sink_go.Uri.Address.{
  Address, slash, scheme, max_address_bytes, valid_store, parse_segments, parse_path, parse_parts,
  parse, new_address, empty_path, too_long, not_sink,
}
use sink_go.Uri.Address.Segments.{
  IsSegment, parse_segments_sound, parse_segments-IsBytes, parse_segments_complete,
  valid_store-Lacks, map-path_escape-Lacks, path_not_empty,
}

-- What follows the scheme in the canonical spelling.
abbrev pub render_rest : Bytes → List Bytes → Bytes
render_rest store [] = store
render_rest store (s ∷ segments) = store ++ slash ∷ join slash (map path_escape (s ∷ segments))

abbrev pub render : Bytes → List Bytes → Bytes
render store segments = scheme ++ render_rest store segments

-- What an address of the package satisfies.
pub record IsCanonical (a : Address) : Type 0 where
  pub spelled : a.value ≡ render a.store a.segments
  pub store_valid : valid_store a.store ≡ true
  pub segments_valid : All IsSegment a.segments
  pub bounded : length a.value ≤ max_address_bytes

render_rest-join :
    (store : Bytes) (segments : List Bytes)
    → segments ≢ []
    → render_rest store segments ≡ store ++ slash ∷ join slash (map path_escape segments)
render_rest-join store [] h = absurd (h refl)
render_rest-join store (s ∷ segments) h = refl

map-ne-nil :
    (segments parts : List Bytes) → map path_escape segments ≡ parts → parts ≢ [] → segments ≢ []
map-ne-nil [] parts e h = absurd (h (sym e))
map-ne-nil (s ∷ segments) parts e h = cc

-- What an accepted text determines, given what stands behind the scheme.
record Reads (value rest : Bytes) (a : Address) : Type 0 where
  kept : a.value ≡ value
  spelled_rest : render_rest a.store a.segments ≡ rest
  store_valid : valid_store a.store ≡ true
  segments_valid : All IsSegment a.segments

parse_path_sound :
    (value store path : Bytes) {a : Address}
    → valid_store store ≡ true
    → parse_path value store path ≡ ok a
    → Reads value (store ++ slash ∷ path) a
unfolding parse_path
parse_path_sound value store path {a} valid h =
    let (u, he, h') = >>=-eq-ok (fail_if (is_empty path) empty_path) _ h in
    let (segments, hs, e) = >>=-eq-ok (parse_segments (split slash path)) _ h' in
    let (same, good) = parse_segments_sound (split slash path) segments hs in
    let spelled =
      render_rest-join store segments (map-ne-nil segments _ same (split-ne-nil slash path)) in
    let joined : join slash (map path_escape segments) ≡ path = rw same (join-split slash path) in
    let eq : record { value = value; store = store; segments = segments } ≡ a = ground arith in
    subst (Reads value (store ++ slash ∷ path)) eq (record {
      kept = refl;
      spelled_rest = rw joined at spelled;
      store_valid = valid;
      segments_valid = good;
    })

parse_parts_sound :
    (value : Bytes) (parts : Bytes × Bytes × Bool) {a : Address}
    → parse_parts value parts ≡ ok a
    → Reads value (uncut slash parts) a
unfolding parse_parts
parse_parts_sound value (store, path, found) {a} h = elim (Bool-cases (valid_store store)) [
  | inl valid ↦ with_store found valid (rw valid at h)
  | inr bad ↦ absurd (let h' = rw bad at h in cc)
]
  where
    with_store :
        (found : Bool)
        → valid_store store ≡ true
        → (if not found
            then ok (record { value = value; store = store; segments = [] })
            else parse_path value store path)
          ≡ ok a
        → Reads value (uncut slash (store, path, found)) a
    with_store true valid h = parse_path_sound value store path valid h
    with_store false valid h =
        let eq : record { value = value; store = store; segments = [] } ≡ a = ground arith in
        subst (Reads value store) eq
          (record { kept = refl; spelled_rest = refl; store_valid = valid; segments_valid = tt })

-- A text that `Parse` accepts is kept as the value of the address. It is the escaped spelling of
-- the store and the segments, all of them valid, and within the bound of 16 KiB.
pub parse-IsCanonical :
    (value : Bytes) {a : Address} → parse value ≡ ok a → (a.value ≡ value) × IsCanonical a
unfolding parse
parse-IsCanonical value {a} h =
    let (u, hl, h') = >>=-eq-ok (fail_if (ltb max_address_bytes (length value)) too_long) _ h in
    let (remainder, hr, h'') = >>=-eq-ok (or_err (cut_prefix scheme value) not_sink) _ h' in
    let reads = parse_parts_sound value (cut slash remainder) h'' in
    let text = cut_prefix_eq scheme value remainder (or_err-eq-ok _ _ hr) in
    let spelled = ap (λ rest. scheme ++ rest) (reads.spelled_rest ∙ uncut-cut slash remainder) in
    let fits = not_ltb→le max_address_bytes (length value) (fail_if-eq-ok _ _ hl) in
    (
      reads.kept,
      record {
        spelled = reads.kept ∙ text ∙ sym spelled;
        store_valid = reads.store_valid;
        segments_valid = reads.segments_valid;
        bounded = rw reads.kept fits;
      },
    )

parse_parts-IsBytes :
    (value store path : Bytes) (found : Bool) {a : Address}
    → parse_parts value (store, path, found) ≡ ok a
    → IsBytes path
    → All IsBytes a.segments
unfolding parse_parts parse_path
parse_parts-IsBytes value store path true {a} h b =
    let (u, hv, h') = >>=-eq-ok (fail_if (not (valid_store store)) _) _ h in
    let (u', he, h'') = >>=-eq-ok (fail_if (is_empty path) _) _ h' in
    let (segments, hs, e) = >>=-eq-ok (parse_segments (split slash path)) _ h'' in
    subst (All IsBytes) (ap (λ (x : Address). x.segments) (ok_eq e))
      (parse_segments-IsBytes _ segments hs (split-IsBytes slash path b))
parse_parts-IsBytes value store path false {a} h b =
    let (u, hv, e) = >>=-eq-ok (fail_if (not (valid_store store)) _) _ h in
    subst (All IsBytes) (ap (λ (x : Address). x.segments) (ok_eq e)) tt

-- The segments of an accepted text are bytes.
pub parse-IsBytes :
    (value : Bytes) {a : Address} → parse value ≡ ok a → IsBytes value → All IsBytes a.segments
unfolding parse
parse-IsBytes value h b =
    let (u, hl, h') = >>=-eq-ok (fail_if (ltb max_address_bytes (length value)) too_long) _ h in
    let (rest, hr, h'') = >>=-eq-ok (or_err (cut_prefix scheme value) not_sink) _ h' in
    let text = cut_prefix_eq scheme value rest (or_err-eq-ok _ _ hr) in
    let rest_bytes = All-append_right _ scheme rest (subst IsBytes text b) in
    parse_parts-IsBytes value _ _ _ h'' (cut-IsBytes slash rest rest_bytes)

-- Two texts that parse to the same store and the same segments are the same text.
pub parse_injective :
    (v w : Bytes) {a b : Address}
    → parse v ≡ ok a
    → parse w ≡ ok b
    → a.store ≡ b.store
    → a.segments ≡ b.segments
    → v ≡ w
parse_injective v w {a} {b} h k same_store same_segments =
    let (va, ca) = parse-IsCanonical v h in
    let (wb, cb) = parse-IsCanonical w k in
    let e : render a.store a.segments ≡ render b.store b.segments =
      rw (same_store, same_segments) in
    sym va ∙ ca.spelled ∙ e ∙ sym cb.spelled ∙ wb

cut-render_rest :
    (store : Bytes) (segments : List Bytes)
    → valid_store store ≡ true
    → All IsBytes segments
    → All IsSegment segments
    → (value : Bytes)
    → parse_parts value (cut slash (render_rest store segments))
      ≡ ok (record { value = value; store = store; segments = segments })
unfolding parse_parts
cut-render_rest store [] valid b h value =
    rw (cut_whole slash store (valid_store-Lacks store valid)) (rw valid)
cut-render_rest store (s ∷ segments) valid b h value =
    let path = join slash (map path_escape (s ∷ segments)) in
    let parts =
      split-join slash (map path_escape (s ∷ segments)) (cc)
        (map-path_escape-Lacks (s ∷ segments)) in
    let read : parse_segments (split slash path) ≡ ok (s ∷ segments) =
      rw parts (parse_segments_complete (s ∷ segments) b h) in
    rw (cut_at slash store path (valid_store-Lacks store valid))
      (rw valid (unfold parse_path in rw (path_not_empty s segments h.0) (rw read)))

-- The canonical spelling of a valid store and valid segments parses to just these, if it fits.
pub parse-render :
    (store : Bytes) (segments : List Bytes)
    → valid_store store ≡ true
    → All IsBytes segments
    → All IsSegment segments
    → length (render store segments) ≤ max_address_bytes
    → parse (render store segments)
      ≡ ok (record { value = render store segments; store = store; segments = segments })
unfolding parse cut_prefix
parse-render store segments valid b h fits =
    rw (le→not_ltb max_address_bytes (length (render store segments)) fits)
      (cut-render_rest store segments valid b h (render store segments))

-- The builder and the parser agree: what `New` makes of valid parts has these parts.
pub new_address-render :
    (store : Bytes) (segments : List Bytes)
    → new_address store segments ≡ parse (render store segments)
unfolding new_address
new_address-render store [] = refl
new_address-render store (s ∷ segments) = refl

-- `New` on a valid store and on valid segments of bytes, if their spelling fits the bound, gives
-- the address with just these.
pub new_address_lem :
    (store : Bytes) (segments : List Bytes)
    → valid_store store ≡ true
    → All IsBytes segments
    → All IsSegment segments
    → length (render store segments) ≤ max_address_bytes
    → new_address store segments
      ≡ ok (record { value = render store segments; store = store; segments = segments })
new_address_lem store segments valid b h fits =
    new_address-render store segments ∙ parse-render store segments valid b h fits
