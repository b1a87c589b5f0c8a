-- ===== src/Uri/Escape.antt =====
-- net/url's `PathEscape` and `PathUnescape`, which uri/address.go calls on every path segment.
use sink_go.Base.{
  ℕ, ◌+◌, ◌-◌, ◌*◌, ◌/◌, ◌%◌, ◌<◌, ◌≡◌, ◌≢◌, refl, Bool, true, false, ◌&&◌, ◌||◌, Option, none,
  some, [], ◌∷◌, ◌++◌, arith, ltb, leb, ◌==◌, if◌then◌else◌, Bytes, IsBytes, Bool-cases, inl, inr,
  All, All-append, subst, some_eq, subst,
}

abbrev pub percent : ℕ
percent = b'%'

-- Letters and digits, `-_.~`, and of the reserved characters those that may stand in a segment.
unfoldable pub should_escape : ℕ → Bool
should_escape c =
    if leb b'a' c && leb c b'z' || leb b'A' c && leb c b'Z' || leb b'0' c && leb c b'9'
    then false
    else if c == b'-' || c == b'_' || c == b'.' || c == b'~'
    then false
    else if c == b'$' || c == b'&' || c == b'+' || c == b':' || c == b'=' || c == b'@'
    then false
    else true

-- "0123456789ABCDEF"[d]
unfoldable pub upper_hex : ℕ → ℕ
upper_hex d = if ltb d 10 then b'0' + d else b'A' + (d - 10)

unfoldable pub escape_byte : ℕ → Bytes
escape_byte c =
    if should_escape c then percent ∷ upper_hex (c / 16) ∷ upper_hex (c % 16) ∷ [] else c ∷ []

unfoldable pub path_escape : Bytes → Bytes
path_escape [] = []
path_escape (c ∷ s) = escape_byte c ++ path_escape s

-- `ishex` and `unhex` in one.
unfoldable pub unhex : ℕ → Option ℕ
unhex c =
    if leb b'0' c && leb c b'9'
    then some (c - b'0')
    else if leb b'a' c && leb c b'f'
    then some (c - b'a' + 10)
    else if leb b'A' c && leb c b'F'
    then some (c - b'A' + 10)
    else none

abbrev push : Option ℕ → Option Bytes → Option Bytes
push (some c) (some s) = some (c ∷ s)
push _ _ = none

unfoldable pub hex_pair : ℕ → ℕ → Option ℕ
unfolding unhex
hex_pair a b = elim (unhex a) [
  | none ↦ none
  | some h ↦ elim (unhex b) [ none ↦ none | some l ↦ some (h * 16 + l) ]
]

-- `none` is `url.EscapeError`.
unfoldable pub path_unescape : Bytes → Option Bytes
path_unescape [] = some []
path_unescape (c ∷ []) = if c == percent then none else some (c ∷ [])
path_unescape (c ∷ a ∷ []) = if c == percent || a == percent then none else some (c ∷ a ∷ [])
path_unescape (c ∷ a ∷ b ∷ s) = elim (c == percent) [
  | true ↦ push (hex_pair a b) (path_unescape s)
  | false ↦ push (some c) (path_unescape (a ∷ b ∷ s))
]

hex_pair-upper_hex : (c : ℕ) → c < 256 → hex_pair (upper_hex (c / 16)) (upper_hex (c % 16)) ≡ some c
unfolding hex_pair upper_hex
hex_pair-upper_hex c h = ground arith

path_unescape_plain :
    (c : ℕ) (s : Bytes) → c ≢ percent → path_unescape (c ∷ s) ≡ push (some c) (path_unescape s)
unfolding path_unescape
path_unescape_plain c [] h = ground arith
path_unescape_plain c (a ∷ []) h = ground arith
path_unescape_plain c (a ∷ b ∷ s) h = ground arith

should_escape-percent : (c : ℕ) → should_escape c ≡ false → c ≢ percent
unfolding should_escape
should_escape-percent c h = ground arith

escape_byte_step :
    (c : ℕ) (s : Bytes)
    → c < 256
    → path_unescape (escape_byte c ++ s) ≡ push (some c) (path_unescape s)
unfolding escape_byte path_unescape
escape_byte_step c s h = elim (Bool-cases (should_escape c)) [
  | inl yes_escape ↦ rw yes_escape (rw (hex_pair-upper_hex c h))
  | inr plain ↦ rw plain (path_unescape_plain c s (should_escape-percent c plain))
]

-- Every byte string is read back from its escaped form.
pub path_unescape-path_escape : (s : Bytes) → IsBytes s → path_unescape (path_escape s) ≡ some s
unfolding path_escape
path_unescape-path_escape [] h = unfold path_unescape in refl
path_unescape-path_escape (c ∷ s) (hc, hs) =
    ground (arith, escape_byte_step c (path_escape s) hc, path_unescape-path_escape s hs)

escape_byte-Lacks : (c : ℕ) → All (λ b. b ≢ b'/') (escape_byte c)
unfolding escape_byte should_escape upper_hex
escape_byte-Lacks c = ground arith

-- An escaped segment holds no slash.
pub path_escape-Lacks : (s : Bytes) → All (λ b. b ≢ b'/') (path_escape s)
unfolding path_escape
path_escape-Lacks [] = tt
path_escape-Lacks (c ∷ s) =
    All-append _ (escape_byte c) (path_escape s) (escape_byte-Lacks c) (path_escape-Lacks s)

-- The escaped form of a text is empty only for the empty text.
pub path_escape-ne-nil : (c : ℕ) (s : Bytes) → path_escape (c ∷ s) ≢ []
unfolding path_escape escape_byte
path_escape-ne-nil c s = ground arith

hex_pair-lt : (a b : ℕ) {c : ℕ} → hex_pair a b ≡ some c → c < 256
unfolding hex_pair unhex
hex_pair-lt a b h = ground arith

push-IsBytes :
    (o : Option ℕ) (r : Option Bytes) {t : Bytes}
    → push o r ≡ some t
    → ((c : ℕ) → o ≡ some c → c < 256)
    → ((s : Bytes) → r ≡ some s → IsBytes s)
    → IsBytes t
push-IsBytes none r h _ _ = ground arith
push-IsBytes (some c) none h _ _ = ground arith
push-IsBytes (some c) (some s) h f g = subst IsBytes (some_eq h) (f c refl, g s refl)

-- Unescaping bytes gives bytes.
pub path_unescape-IsBytes :
    (s : Bytes) {t : Bytes} → IsBytes s → path_unescape s ≡ some t → IsBytes t
unfolding path_unescape
path_unescape-IsBytes [] b h = subst IsBytes (some_eq h) tt
path_unescape-IsBytes (c ∷ []) b h = elim (Bool-cases (c == percent)) [
  | inl escaped ↦ absurd (let h' = rw escaped at h in cc)
  | inr plain ↦ subst IsBytes (some_eq (rw plain at h)) b
]
path_unescape-IsBytes (c ∷ a ∷ []) b h = elim (Bool-cases (c == percent || a == percent)) [
  | inl escaped ↦ absurd (let h' = rw escaped at h in cc)
  | inr plain ↦ subst IsBytes (some_eq (rw plain at h)) b
]
path_unescape-IsBytes (c ∷ a ∷ x ∷ s) (hc, (ha, (hx, hs))) h = elim (Bool-cases (c == percent)) [
  | inl escaped ↦
      push-IsBytes (hex_pair a x) (path_unescape s) (rw (escaped, path_unescape) at h)
        (λ d e. hex_pair-lt a x e) (λ t e. path_unescape-IsBytes s hs e)
  | inr plain ↦
      push-IsBytes (some c) (path_unescape (a ∷ x ∷ s)) (rw (plain, path_unescape) at h)
        (λ d e. subst (λ n. n < 256) (some_eq e) hc)
        (λ t e. path_unescape-IsBytes (a ∷ x ∷ s) (ha, (hx, hs)) e)
]
