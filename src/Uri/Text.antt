-- ===== src/Uri/Text.antt =====
-- What the code uses of package strings: `Cut`, `CutPrefix`, `Split`, `Join` and `TrimSpace`.
use mathlib.Core.List.{reverse}
use sink_go.Base.{
  ℕ, ◌≡◌, ◌≢◌, refl, ap, Bool, true, false, ◌||◌, ◌&&◌, Option, none, some, List, [], ◌∷◌, ◌++◌,
  append_assoc, arith, ◌==◌, leb, if◌then◌else◌, Bytes, IsBytes, codes, All, Bool-cases, inl, inr,
  ◌<◌,
}

abbrev push_byte : ℕ → Bytes × Bytes × Bool → Bytes × Bytes × Bool
push_byte c (before, after, found) = (c ∷ before, after, found)

-- `strings.Cut` at a single byte.
unfoldable pub cut : ℕ → Bytes → Bytes × Bytes × Bool
cut sep [] = ([], [], false)
cut sep (c ∷ s) = if c == sep then ([], s, true) else push_byte c (cut sep s)

unfoldable pub cut_prefix : Bytes → Bytes → Option Bytes
cut_prefix [] s = some s
cut_prefix (p ∷ ps) [] = none
cut_prefix (p ∷ ps) (c ∷ s) = if p == c then cut_prefix ps s else none

abbrev push_first : ℕ → List Bytes → List Bytes
push_first c [] = (c ∷ []) ∷ []
push_first c (p ∷ ps) = (c ∷ p) ∷ ps

unfoldable pub split : ℕ → Bytes → List Bytes
split sep [] = [] ∷ []
split sep (c ∷ s) = if c == sep then [] ∷ split sep s else push_first c (split sep s)

unfoldable pub join : ℕ → List Bytes → Bytes
join sep [] = []
join sep (p ∷ []) = p
join sep (p ∷ q ∷ ps) = p ++ sep ∷ join sep (q ∷ ps)

abbrev is_ascii_space : ℕ → Bool
is_ascii_space c = c == b' ' || leb 9 c && leb c 13

-- Unicode's white space in UTF-8 beside the ASCII ones: U+1680, U+2000 to U+200A, U+2028, U+2029,
-- U+202F, U+205F and U+3000 in three bytes, U+0085 and U+00A0 in two.
abbrev wide_space : ℕ → ℕ → ℕ → Bool
wide_space a b c =
    a == 0xE1 && b == 0x9A && c == 0x80
    || a == 0xE2 && b == 0x80 && (leb 0x80 c && leb c 0x8A || c == 0xA8 || c == 0xA9 || c == 0xAF)
    || a == 0xE2 && b == 0x81 && c == 0x9F
    || a == 0xE3 && b == 0x80 && c == 0x80

abbrev double_space : ℕ → ℕ → Bool
double_space a b = a == 0xC2 && (b == 0x85 || b == 0xA0)

-- Drops white space in front; the tests for characters of two and three bytes are arguments, since
-- the end of a text is trimmed by its reverse.
trim_start : (ℕ → ℕ → Bool) → (ℕ → ℕ → ℕ → Bool) → Bytes → Bytes
trim_start two three [] = []
trim_start two three (a ∷ []) = if is_ascii_space a then [] else a ∷ []
trim_start two three (a ∷ b ∷ []) =
    if is_ascii_space a
    then (if is_ascii_space b then [] else b ∷ [])
    else if two a b
    then []
    else a ∷ b ∷ []
trim_start two three (a ∷ b ∷ c ∷ s) = elim (is_ascii_space a) [
  | true ↦ trim_start two three (b ∷ c ∷ s)
  | false ↦ elim (two a b) [
    | true ↦ trim_start two three (c ∷ s)
    | false ↦ elim (three a b c) [ true ↦ trim_start two three s | false ↦ a ∷ b ∷ c ∷ s ]
  ]
]

-- `TrimSpace` of packages strings and bytes.
unfoldable pub trim_space : Bytes → Bytes
unfolding trim_start
trim_space s = reverse (
    trim_start (λ b a. double_space a b) (λ c b a. wide_space a b c)
      (reverse (trim_start double_space wide_space s)))

abbrev pub Lacks : ℕ → Bytes → Type 0
Lacks b = All (λ c. c ≢ b)

-- Without a match the text is all before the cut.
pub cut_whole : (sep : ℕ) (s : Bytes) → Lacks sep s → cut sep s ≡ (s, [], false)
unfolding cut
cut_whole sep [] h = refl
cut_whole sep (c ∷ s) (hc, hs) = ground (arith, cut_whole sep s hs)

pub cut_at : (sep : ℕ) (s t : Bytes) → Lacks sep s → cut sep (s ++ sep ∷ t) ≡ (s, t, true)
unfolding cut
cut_at sep [] t h = ground arith
cut_at sep (c ∷ s) t (hc, hs) = ground (arith, cut_at sep s t hs)

-- The parts spell the text.
abbrev pub uncut : ℕ → Bytes × Bytes × Bool → Bytes
uncut sep (before, after, found) = if found then before ++ sep ∷ after else before

pub uncut-cut : (sep : ℕ) (s : Bytes) → uncut sep (cut sep s) ≡ s
unfolding cut
uncut-cut sep [] = refl
uncut-cut sep (c ∷ s) = ground (arith, uncut-cut sep s)

pub cut_prefix_eq : (p s r : Bytes) → cut_prefix p s ≡ some r → s ≡ p ++ r
unfolding cut_prefix
cut_prefix_eq [] s r h = ground arith
cut_prefix_eq (a ∷ p) [] r h = ground arith
cut_prefix_eq (a ∷ p) (c ∷ s) r h = ground (arith, cut_prefix_eq p s r)

pub cut_prefix-append : (p r : Bytes) → cut_prefix p (p ++ r) ≡ some r
unfolding cut_prefix
cut_prefix-append [] r = refl
cut_prefix-append (a ∷ p) r = ground (arith, cut_prefix-append p r)

-- A split has at least one part.
pub split-ne-nil : (sep : ℕ) (s : Bytes) → split sep s ≢ []
unfolding split
split-ne-nil sep [] = ground arith
split-ne-nil sep (c ∷ s) = ground (arith, split-ne-nil sep s)

join_push : (sep c : ℕ) (ps : List Bytes) → ps ≢ [] → join sep (push_first c ps) ≡ c ∷ join sep ps
unfolding join
join_push sep c [] h = ground arith
join_push sep c (p ∷ []) h = refl
join_push sep c (p ∷ q ∷ ps) h = refl

join_empty : (sep : ℕ) (ps : List Bytes) → ps ≢ [] → join sep ([] ∷ ps) ≡ sep ∷ join sep ps
unfolding join
join_empty sep [] h = ground arith
join_empty sep (p ∷ ps) h = refl

-- Joining the parts of a split gives the text back.
pub join-split : (sep : ℕ) (s : Bytes) → join sep (split sep s) ≡ s
unfolding split
join-split sep [] = unfold join in refl
join-split sep (c ∷ s) = ground (
  arith,
  join-split sep s,
  join_push sep c (split sep s) (split-ne-nil sep s),
  join_empty sep (split sep s) (split-ne-nil sep s),
)

split_whole : (sep : ℕ) (p : Bytes) → Lacks sep p → split sep p ≡ p ∷ []
unfolding split
split_whole sep [] h = refl
split_whole sep (c ∷ p) (hc, hp) = ground (arith, split_whole sep p hp)

split_at : (sep : ℕ) (p s : Bytes) → Lacks sep p → split sep (p ++ sep ∷ s) ≡ p ∷ split sep s
unfolding split
split_at sep [] s h = ground arith
split_at sep (c ∷ p) s (hc, hp) = ground (arith, split_at sep p s hp)

-- Splitting a join gives the parts back, if there is a part and none holds the separator.
pub split-join :
    (sep : ℕ) (ps : List Bytes) → ps ≢ [] → All (Lacks sep) ps → split sep (join sep ps) ≡ ps
unfolding join
split-join sep [] h k = absurd (h refl)
split-join sep (p ∷ []) h (kp, k) = split_whole sep p kp
split-join sep (p ∷ q ∷ ps) h (kp, k) =
    rw (split_at sep p (join sep (q ∷ ps)) kp) (ap (λ l. p ∷ l) (split-join sep (q ∷ ps) (cc) k))

-- One more part at the end of a join.
pub join-snoc :
    (sep : ℕ) (ps : List Bytes) (q : Bytes)
    → ps ≢ []
    → join sep (ps ++ q ∷ []) ≡ join sep ps ++ sep ∷ q
unfolding join
join-snoc sep [] q h = absurd (h refl)
join-snoc sep (p ∷ []) q h = refl
join-snoc sep (p ∷ r ∷ ps) q h = simp (join-snoc sep (r ∷ ps) q (cc), append_assoc)

trim_examples :
    (trim_space (0x20 ∷ 0xC2 ∷ 0xA0 ∷ b'a' ∷ 0x20 ∷ b'b' ∷ 0xE3 ∷ 0x80 ∷ 0x80 ∷ 9 ∷ [])
      ≡ codes "a b")
    × (trim_space (0x20 ∷ 0xC2 ∷ 0xA1 ∷ []) ≡ 0xC2 ∷ 0xA1 ∷ [])
    × (trim_space (codes " \t\n") ≡ [])
unfolding trim_space
trim_examples = (refl, refl, refl)

-- Cutting and splitting bytes gives bytes.
pub cut-IsBytes : (sep : ℕ) (s : Bytes) → IsBytes s → IsBytes (cut sep s).1
unfolding cut
cut-IsBytes sep [] h = tt
cut-IsBytes sep (c ∷ s) (hc, hs) = ground (arith, cut-IsBytes sep s hs)

push_first-IsBytes :
    (c : ℕ) (ps : List Bytes) → c < 256 → All IsBytes ps → All IsBytes (push_first c ps)
push_first-IsBytes c [] h k = ((h, tt), tt)
push_first-IsBytes c (p ∷ ps) h (kp, k) = ((h, kp), k)

pub split-IsBytes : (sep : ℕ) (s : Bytes) → IsBytes s → All IsBytes (split sep s)
unfolding split
split-IsBytes sep [] h = (tt, tt)
split-IsBytes sep (c ∷ s) (hc, hs) = elim (Bool-cases (c == sep)) [
  | inl e ↦ rw e (tt, split-IsBytes sep s hs)
  | inr e ↦ rw e (push_first-IsBytes c (split sep s) hc (split-IsBytes sep s hs))
]
