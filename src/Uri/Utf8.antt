-- ===== src/Uri/Utf8.antt =====
-- unicode/utf8's `ValidString`, as the automaton that its tables of accept ranges describe.
use sink_go.Base.{
  ℕ, zero, suc, ◌<◌, ◌≡◌, refl, sym, subst, Bool, true, false, ◌&&◌, Option, none, some, [], ◌∷◌,
  ◌++◌, arith, ltb, leb, ◌==◌, if◌then◌else◌, Bytes, All, codes,
}

-- Between characters, or in one with continuation bytes left, the next of them from `lo` to `hi`.
pub data Decoder : Type 0 where
  boundary : Decoder
  inside : (left lo hi : ℕ) → Decoder

-- The first byte fixes the length and the range of the second byte.
unfoldable pub first : ℕ → Option Decoder
first c =
    if ltb c 0x80
    then some boundary
    else if ltb c 0xC2
    then none
    else if ltb c 0xE0
    then some (inside 0 0x80 0xBF)
    else if c == 0xE0
    then some (inside 1 0xA0 0xBF)
    else if c == 0xED
    then some (inside 1 0x80 0x9F)
    else if ltb c 0xF0
    then some (inside 1 0x80 0xBF)
    else if c == 0xF0
    then some (inside 2 0x90 0xBF)
    else if ltb c 0xF4
    then some (inside 2 0x80 0xBF)
    else if c == 0xF4
    then some (inside 2 0x80 0x8F)
    else none

unfoldable pub feed : Decoder → ℕ → Option Decoder
feed boundary c = first c
feed (inside zero lo hi) c = if leb lo c && leb c hi then some boundary else none
feed (inside (suc left) lo hi) c =
    if leb lo c && leb c hi then some (inside left 0x80 0xBF) else none

unfoldable pub at_boundary : Decoder → Bool
at_boundary boundary = true
at_boundary (inside left lo hi) = false

unfoldable pub run : Option Decoder → Bytes → Bool
unfolding feed at_boundary
run none s = false
run (some d) [] = at_boundary d
run (some d) (c ∷ s) = run (feed d c) s

unfoldable pub valid_string : Bytes → Bool
unfolding run
valid_string s = run (some boundary) s

run-append :
    (d : Option Decoder) (s t : Bytes)
    → run d s ≡ true
    → run (some boundary) t ≡ true
    → run d (s ++ t) ≡ true
unfolding run
run-append none s t h k = ground arith
run-append (some boundary) [] t h k = k
run-append (some (inside left lo hi)) [] t h k = ground arith
run-append (some d) (c ∷ s) t h k = run-append (feed d c) s t h k

-- Valid texts concatenate to a valid text.
pub valid_string-append :
    (s t : Bytes) → valid_string s ≡ true → valid_string t ≡ true → valid_string (s ++ t) ≡ true
unfolding valid_string
valid_string-append s t h k = run-append (some boundary) s t h k

ascii_first : (c : ℕ) → c < 128 → first c ≡ some boundary
unfolding first
ascii_first c h = ground arith

-- ASCII is valid.
pub valid_string-ascii : (s : Bytes) → All (λ c. c < 128) s → valid_string s ≡ true
unfolding valid_string
valid_string-ascii [] h = refl
valid_string-ascii (c ∷ s) (hc, hs) =
    subst (λ d. run d s ≡ true) (sym (ascii_first c hc)) (valid_string-ascii s hs)

-- "é" and "€" are valid; an overlong slash, a surrogate and a truncated character are not.
valid_examples :
    (valid_string (0xC3 ∷ 0xA9 ∷ 0xE2 ∷ 0x82 ∷ 0xAC ∷ []) ≡ true)
    × (valid_string (0xC0 ∷ 0xAF ∷ []) ≡ false)
    × (valid_string (0xED ∷ 0xA0 ∷ 0x80 ∷ []) ≡ false)
    × (valid_string (codes "ok" ++ 0xE2 ∷ 0x82 ∷ []) ≡ false)
unfolding valid_string first
valid_examples = (refl, refl, refl, refl)
