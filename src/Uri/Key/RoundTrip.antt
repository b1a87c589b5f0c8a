-- ===== src/Uri/Key/RoundTrip.antt =====
-- uri/key.go: the texts and the keys of `ParseKey` and `FormatKey`.
use sink_go.Base.{
  ◌≡◌, refl, sym, ap, ◌∙◌, Bool, true, not, ◌∷◌, ◌++◌, arith, Bytes, IsBytes, bytes_eq, bytes_eq→eq,
  bytes_eq_refl, codes, All-weaken, All-append_right, ok, fail_if, >>=-eq-ok, Bool-cases, inl, inr,
  length,
}
use sink_go.Uri.Text.{cut, cut_at}
use sink_go.Uri.Base64.{encode, encode-ascii, decode_strict-encode}
use sink_go.Uri.Decimal.{
  format_int, to_int64, uint64, parse_int-format_int, to_int64-IsInt64, uint64-lt,
  to_uint64-to_int64, put_uint64-uint64,
}
use sink_go.Uri.Key.{
  Key, colon, opaque_prefix, opaque_key, format_key, parse_key, parse_cut, parse_tagged,
  parse_opaque, check_canonical,
}
use sink_go.Uri.Key.Forms.{Form, string_form, int64_form, bytes_form, opaque_form, format_key-Form}

check_canonical_sound :
    (s : Bytes) (key : Key) {k : Key} → check_canonical s key ≡ ok k → format_key k ≡ ok s
unfolding check_canonical
check_canonical_sound s key {k} h =
    let (c, hc, h') = >>=-eq-ok (format_key key) _ h in
    elim (Bool-cases (bytes_eq c s)) [
      | inl same ↦
          let e : key ≡ k = (let h'' = rw same at h' in ground arith) in
          let printed : format_key k ≡ ok c = rw e at hc in printed ∙ ap ok (bytes_eq→eq c s same)
      | inr other ↦ absurd (let h'' = rw other at h' in cc)
    ]

parse_cut_sound :
    (s : Bytes) (parts : Bytes × Bytes × Bool) {k : Key}
    → parse_cut s parts ≡ ok k
    → format_key k ≡ ok s
unfolding parse_cut
parse_cut_sound s (tag, value, found) h =
    let (u, hf, h') = >>=-eq-ok (fail_if (not found) _) _ h in
    let (key, hk, h'') = >>=-eq-ok (parse_tagged tag value) _ h' in check_canonical_sound s key h''

-- A segment that `ParseKey` accepts is the print of the key that it was read as.
pub format_key-parse_key : (s : Bytes) {k : Key} → parse_key s ≡ ok k → format_key k ≡ ok s
unfolding parse_key
format_key-parse_key s h = parse_cut_sound s (cut colon s) h

check_canonical_complete : (s : Bytes) (k : Key) → format_key k ≡ ok s → check_canonical s k ≡ ok k
unfolding check_canonical
check_canonical_complete s k h = rw h (rw (bytes_eq_refl s))

parse_cut_complete :
    (s tag value : Bytes) (k : Key)
    → parse_tagged tag value ≡ ok k
    → format_key k ≡ ok s
    → parse_cut s (tag, value, true) ≡ ok k
unfolding parse_cut
parse_cut_complete s tag value k h f = rw h (check_canonical_complete s k f)

parse_int64 :
    (value : Bytes)
    → IsBytes value
    → length value ≡ 8
    → parse_tagged (codes "i") (format_int (to_int64 (uint64 value 0)))
      ≡ ok (record { kind = codes "int64"; content = value })
unfolding parse_tagged
parse_int64 value b e =
    let u = uint64 value 0 in
    let small = uint64-lt value e b in
    rw (parse_int-format_int (to_int64 u) (to_int64-IsInt64 u small))
      (rw (to_uint64-to_int64 u small) (rw (put_uint64-uint64 value e b)))

parse_opaque-encode :
    (kind value : Bytes)
    → IsBytes kind
    → IsBytes value
    → parse_opaque (cut colon (encode kind ++ colon ∷ encode value)) ≡ ok (opaque_key kind value)
unfolding parse_opaque
parse_opaque-encode kind value bk b =
    rw (cut_at colon (encode kind) (encode value) (All-weaken (λ c h. h.1) _ (encode-ascii kind)))
      (rw (decode_strict-encode kind bk) (rw (decode_strict-encode value b)))

parse_Form :
    {k : Key} {s : Bytes}
    → Form k s
    → IsBytes k.kind
    → IsBytes k.content
    → format_key k ≡ ok s
    → parse_cut s (cut colon s) ≡ ok k
unfolding cut
parse_Form (string_form value h) bk b f =
    parse_cut_complete _ (codes "s") value _ (unfold parse_tagged in refl) f
parse_Form (int64_form value h) bk b f =
    parse_cut_complete _ (codes "i") _ _ (parse_int64 value b h) f
parse_Form (bytes_form value) bk b f =
    parse_cut_complete _ (codes "b") (encode value) _
      (unfold parse_tagged in rw (decode_strict-encode value b)) f
parse_Form (opaque_form kind value h g) bk b f =
    parse_cut_complete _ (codes "o") _ _
      (unfold parse_tagged in
        parse_opaque-encode kind value (All-append_right _ opaque_prefix kind bk) b)
      f

-- Every key of bytes that `FormatKey` prints is read back from its print by `ParseKey`, its type
-- included.
pub parse_key-format_key :
    (k : Key) {s : Bytes}
    → IsBytes k.kind
    → IsBytes k.content
    → format_key k ≡ ok s
    → parse_key s ≡ ok k
unfolding parse_key
parse_key-format_key k bk b h = parse_Form (format_key-Form k h) bk b h

-- Keys with the same print are equal, their types included.
pub format_key_injective :
    (k j : Key) {s : Bytes}
    → IsBytes k.kind
    → IsBytes k.content
    → IsBytes j.kind
    → IsBytes j.content
    → format_key k ≡ ok s
    → format_key j ≡ ok s
    → k ≡ j
format_key_injective k j bk b bj b' h h' =
    let e = sym (parse_key-format_key k bk b h) ∙ parse_key-format_key j bj b' h' in ground arith
