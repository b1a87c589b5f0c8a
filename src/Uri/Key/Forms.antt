-- ===== src/Uri/Key/Forms.antt =====
-- The four forms of a key that `FormatKey` prints.
use sink_go.Base.{
  ℕ, ◌<◌, ◌≡◌, ◌≢◌, refl, sym, true, false, not, inl, inr, Option, none, some, [], ◌∷◌, ◌++◌, arith,
  Bytes, IsBytes, codes, bytes_eq, bytes_eq→eq, All, All-append, length, is_empty, ok, Bool-cases,
  ◌==◌, fail_if, ◌>>◌, subst, All-weaken,
}
use sink_go.Uri.Utf8.{valid_string, valid_string-append, valid_string-ascii}
use sink_go.Uri.Text.{cut_prefix, cut_prefix_eq}
use sink_go.Uri.Base64.{encode, encode-ascii}
use sink_go.Uri.Decimal.{format_int, to_int64, uint64, format_int-ascii}
use sink_go.Uri.Address.{valid_segment, not_utf8_key, wrong_int64_length}
use sink_go.Uri.Key.{
  Key, colon, opaque_prefix, string_key, bytes_key, opaque_key, format_key, format_opaque,
}

-- A key beside the text that it prints as.
pub data Form : Key → Bytes → Type 0 where
  string_form :
      (value : Bytes) → valid_string value ≡ true → Form (string_key value) (codes "s:" ++ value)
  int64_form :
      (value : Bytes)
      → length value ≡ 8
      → Form
          (record { kind = codes "int64"; content = value })
          (codes "i:" ++ format_int (to_int64 (uint64 value 0)))
  bytes_form : (value : Bytes) → Form (bytes_key value) (codes "b:" ++ encode value)
  opaque_form :
      (kind value : Bytes)
      → is_empty kind ≡ false
      → valid_string kind ≡ true
      → Form (opaque_key kind value) (codes "o:" ++ (encode kind ++ colon ∷ encode value))

Form-at :
    (k : Key) (kind s t : Bytes)
    → Form (record { kind = kind; content = k.content }) t
    → k.kind ≡ kind
    → t ≡ s
    → Form k s
Form-at k kind s t f e e' =
    subst (λ u. Form k u) e'
      (subst (λ j. Form (record { kind = j; content = k.content }) t) (sym e) f)

format_opaque-Form :
    (k : Key) (s : Bytes) (rest : Option Bytes)
    → cut_prefix opaque_prefix k.kind ≡ rest
    → format_opaque rest k.content ≡ ok s
    → Form k s
unfolding format_opaque
format_opaque-Form k s none e h = ground arith
format_opaque-Form k s (some r) e h = elim (Bool-cases (is_empty r)) [
  | inl empty ↦ absurd (let h' = rw empty at h in cc)
  | inr full ↦ elim (Bool-cases (valid_string r)) [
    | inr bad ↦ absurd (let h' = rw (full, bad) at h in cc)
    | inl good ↦
        Form-at k (opaque_prefix ++ r) s _ (opaque_form r k.content full good)
          (cut_prefix_eq opaque_prefix k.kind r e) (let h' = rw (full, good) at h in ground arith)
  ]
]

string-Form :
    (k : Key) (s : Bytes)
    → k.kind ≡ codes "string"
    → (fail_if (not (valid_string k.content)) not_utf8_key >> ok (codes "s:" ++ k.content)) ≡ ok s
    → Form k s
string-Form k s e h =
    let good : valid_string k.content ≡ true = ground arith in
    Form-at k (codes "string") s _ (string_form k.content good) e
      (let h' = rw good at h in ground arith)

int64-Form :
    (k : Key) (s : Bytes)
    → k.kind ≡ codes "int64"
    → (fail_if (not (length k.content == 8)) wrong_int64_length
        >> ok (codes "i:" ++ format_int (to_int64 (uint64 k.content 0))))
      ≡ ok s
    → Form k s
int64-Form k s e h =
    let test : (length k.content == 8) ≡ true = ground arith in
    Form-at k (codes "int64") s _ (int64_form k.content (ground arith)) e
      (let h' = rw test at h in ground arith)

-- `FormatKey` prints exactly these forms.
pub format_key-Form : (k : Key) {s : Bytes} → format_key k ≡ ok s → Form k s
unfolding format_key
format_key-Form k {s} h = elim (Bool-cases (bytes_eq k.kind (codes "string"))) [
  | inl is_string ↦ string-Form k s (bytes_eq→eq k.kind _ is_string) (rw is_string at h)
  | inr not_string ↦ elim (Bool-cases (bytes_eq k.kind (codes "int64"))) [
    | inl is_int64 ↦ int64-Form k s (bytes_eq→eq k.kind _ is_int64) (rw (not_string, is_int64) at h)
    | inr not_int64 ↦ elim (Bool-cases (bytes_eq k.kind (codes "bytes"))) [
      | inl is_bytes ↦
          let h' = rw (not_string, not_int64, is_bytes) at h in
          Form-at k (codes "bytes") s _ (bytes_form k.content) (bytes_eq→eq k.kind _ is_bytes)
            (ground arith)
      | inr not_bytes ↦ format_opaque-Form k s _ refl (rw (not_string, not_int64, not_bytes) at h)
    ]
  ]
]

not_dots :
    (tag : ℕ) (rest : Bytes)
    → valid_string (tag ∷ colon ∷ rest) ≡ true
    → tag ≢ b'.'
    → valid_segment (tag ∷ colon ∷ rest) ≡ true
unfolding valid_segment
not_dots tag rest h k = ground arith

tagged :
    (tag : ℕ) (rest : Bytes)
    → tag < 128
    → tag ≢ b'.'
    → valid_string rest ≡ true
    → valid_segment (tag ∷ colon ∷ rest) ≡ true
tagged tag rest h k r =
    not_dots tag rest
      (valid_string-append (tag ∷ colon ∷ []) rest
        (valid_string-ascii (tag ∷ colon ∷ []) (h, (omega arith, tt))) r)
      k

encode-valid : (s : Bytes) → valid_string (encode s) ≡ true
encode-valid s = valid_string-ascii (encode s) (All-weaken (λ c h. h.0) (encode s) (encode-ascii s))

-- The text of a key may stand in an address.
pub Form-IsSegment : {k : Key} {s : Bytes} → Form k s → valid_segment s ≡ true
Form-IsSegment (string_form value h) = tagged b's' value (omega arith) (omega arith) h
Form-IsSegment (int64_form value h) =
    tagged b'i' _ (omega arith) (omega arith)
      (valid_string-ascii _ (format_int-ascii (to_int64 (uint64 value 0))))
Form-IsSegment (bytes_form value) =
    tagged b'b' (encode value) (omega arith) (omega arith) (encode-valid value)
Form-IsSegment (opaque_form kind value h g) = tagged b'o' _ (omega arith) (omega arith) (
    valid_string-append (encode kind) _ (encode-valid kind) (
      valid_string-append (colon ∷ []) (encode value)
        (valid_string-ascii (colon ∷ []) (omega arith, tt)) (encode-valid value)))

ascii-IsBytes : (s : Bytes) → All (λ c. c < 128) s → IsBytes s
ascii-IsBytes = All-weaken (λ c h. omega arith)

encode-IsBytes : (s : Bytes) → IsBytes (encode s)
encode-IsBytes s = All-weaken (λ c h. omega arith) (encode s) (encode-ascii s)

pub Form-IsBytes : {k : Key} {s : Bytes} → Form k s → IsBytes k.content → IsBytes s
Form-IsBytes (string_form value h) b = (omega arith, (omega arith, b))
Form-IsBytes (int64_form value h) b =
    (omega arith, (omega arith, ascii-IsBytes _ (format_int-ascii _)))
Form-IsBytes (bytes_form value) b = (omega arith, (omega arith, encode-IsBytes value))
Form-IsBytes (opaque_form kind value h g) b = (
  omega arith,
  (
    omega arith,
    All-append _ (encode kind) _ (encode-IsBytes kind) (omega arith, encode-IsBytes value),
  ),
)
