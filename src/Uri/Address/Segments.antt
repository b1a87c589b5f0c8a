-- ===== src/Uri/Address/Segments.antt =====
-- uri/address.go: the loop over the segments in `Parse`.
use sink_go.Base.{
  ◌≡◌, ◌≢◌, refl, ap, Bool, true, false, some, List, [], ◌∷◌, ◌++◌, map, arith, Bytes, IsBytes,
  bytes_eq→eq, bytes_eq_refl, All, ok, inl, inr, Option-cases, >>=-eq-ok, or_err, or_err-eq-ok,
  ok_eq, subst, ◌∙◌, is_empty,
}
use sink_go.Uri.Escape.{
  path_escape, path_unescape, path_unescape-path_escape, path_unescape-IsBytes, path_escape-Lacks,
  path_escape-ne-nil,
}
use sink_go.Uri.Text.{Lacks, join}
use sink_go.Uri.Address.{
  slash, parse_segment, parse_segments, valid_segment, valid_store, valid_store_bytes,
}

abbrev pub IsSegment : Bytes → Type 0
IsSegment s = valid_segment s ≡ true

not_empty : (s : Bytes) → s ≢ [] → is_empty s ≡ false
not_empty [] h = absurd (h refl)
not_empty (c ∷ s) h = refl

not_empty_append : (s t : Bytes) → s ≢ [] → is_empty (s ++ t) ≡ false
not_empty_append [] t h = absurd (h refl)
not_empty_append (c ∷ s) t h = refl

parse_segment_sound :
    (part d : Bytes) → parse_segment part ≡ ok d → (path_escape d ≡ part) × IsSegment d
unfolding parse_segment
parse_segment_sound part d h = elim (Option-cases (path_unescape part)) [
  | inl e ↦ ground arith
  | inr (s, e) ↦ ground (arith, bytes_eq→eq (path_escape s) part)
]

parse_segment-IsBytes : (part d : Bytes) → IsBytes part → parse_segment part ≡ ok d → IsBytes d
unfolding parse_segment
parse_segment-IsBytes part d b h =
    let (decoded, hd, h') = >>=-eq-ok (or_err (path_unescape part) _) _ h in
    path_unescape-IsBytes part b (or_err-eq-ok (path_unescape part) _ hd ∙ ap some (ground arith))

parse_segment_complete :
    (s : Bytes) → IsBytes s → IsSegment s → parse_segment (path_escape s) ≡ ok s
unfolding parse_segment
parse_segment_complete s b h =
    rw (path_unescape-path_escape s b) (rw h (rw (bytes_eq_refl (path_escape s))))

pub parse_segments_sound :
    (parts segments : List Bytes)
    → parse_segments parts ≡ ok segments
    → (map path_escape segments ≡ parts) × All IsSegment segments
unfolding parse_segments
parse_segments_sound [] segments h = ground arith
parse_segments_sound (p ∷ parts) segments h =
    let (d, hd, h') = >>=-eq-ok (parse_segment p) _ h in
    let (rest, hr, e) = >>=-eq-ok (parse_segments parts) _ h' in
    let (same, valid) = parse_segment_sound p d hd in
    let (sames, valids) = parse_segments_sound parts rest hr in ground arith

pub parse_segments-IsBytes :
    (parts segments : List Bytes)
    → parse_segments parts ≡ ok segments
    → All IsBytes parts
    → All IsBytes segments
unfolding parse_segments
parse_segments-IsBytes [] segments h b = subst (All IsBytes) (ok_eq h) tt
parse_segments-IsBytes (p ∷ parts) segments h (bp, b) =
    let (d, hd, h') = >>=-eq-ok (parse_segment p) _ h in
    let (rest, hr, e) = >>=-eq-ok (parse_segments parts) _ h' in
    subst (All IsBytes) (ok_eq e)
      (parse_segment-IsBytes p d bp hd, parse_segments-IsBytes parts rest hr b)

pub parse_segments_complete :
    (segments : List Bytes)
    → All IsBytes segments
    → All IsSegment segments
    → parse_segments (map path_escape segments) ≡ ok segments
unfolding parse_segments
parse_segments_complete [] b h = refl
parse_segments_complete (s ∷ segments) (bs, b) (hs, h) =
    rw (parse_segment_complete s bs hs) (rw (parse_segments_complete segments b h))

valid_store_bytes-Lacks :
    (start : Bool) (s : Bytes) → valid_store_bytes start s ≡ true → Lacks slash s
unfolding valid_store_bytes
valid_store_bytes-Lacks start [] h = tt
valid_store_bytes-Lacks start (c ∷ s) h = ground (arith, valid_store_bytes-Lacks false s)

-- A store name holds no slash.
pub valid_store-Lacks : (s : Bytes) → valid_store s ≡ true → Lacks slash s
unfolding valid_store
valid_store-Lacks s h = ground (arith, valid_store_bytes-Lacks true s)

pub map-path_escape-Lacks : (segments : List Bytes) → All (Lacks slash) (map path_escape segments)
map-path_escape-Lacks [] = tt
map-path_escape-Lacks (s ∷ segments) = (path_escape-Lacks s, map-path_escape-Lacks segments)

path_escape-IsSegment : (s : Bytes) → IsSegment s → path_escape s ≢ []
path_escape-IsSegment [] h = unfold valid_segment in ground arith
path_escape-IsSegment (c ∷ s) h = path_escape-ne-nil c s

-- The path of at least one valid segment is not empty.
pub path_not_empty :
    (s : Bytes) (segments : List Bytes)
    → IsSegment s
    → is_empty (join slash (map path_escape (s ∷ segments))) ≡ false
unfolding join
path_not_empty s [] h = not_empty (path_escape s) (path_escape-IsSegment s h)
path_not_empty s (t ∷ segments) h = not_empty_append (path_escape s) _ (path_escape-IsSegment s h)
