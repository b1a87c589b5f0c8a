-- ===== src/Uri/Decimal.antt =====
-- strconv's `FormatInt` and `ParseInt` in base 10 for 64 bits, and encoding/binary's `BigEndian`.
use sink_go.Base.{
  ℕ, zero, suc, ◌+◌, ◌-◌, ◌*◌, ◌/◌, ◌%◌, ◌<◌, ◌≤◌, ◌≡◌, refl, ◌||◌, Option, none, some, [], ◌∷◌,
  ◌++◌, arith, ltb, ◌==◌, if◌then◌else◌, Bytes, IsBytes, All, All-weaken, ℤ, pos, negsuc, u64_mod,
  i64_mod, length, ap, ◌∙◌, Bool-cases, inl, inr, append-nil,
}

-- The digits of `n` in front of `out`; `n` rounds are enough, since each divides by ten.
unfoldable pub digits : ℕ → ℕ → Bytes → Bytes
digits zero n out = (b'0' + n % 10) ∷ out
digits (suc f) n out =
    let out' = (b'0' + n % 10) ∷ out in
    let more = digits f (n / 10) out' in if ltb n 10 then out' else more

unfoldable pub format_int : ℤ → Bytes
format_int (pos n) = digits n n []
format_int (negsuc n) = b'-' ∷ digits (suc n) (suc n) []

-- `ParseUint`: `none` is a syntax error or a value of 2^64 or more.
pub scan : Bytes → ℕ → Option ℕ
scan [] n = some n
scan (c ∷ s) n =
    let m = n * 10 + (c - b'0') in
    let rest = scan s m in if ltb c b'0' || ltb b'9' c || ltb (u64_mod - 1) m then none else rest

pub parse_uint : Bytes → Option ℕ
parse_uint [] = none
parse_uint (c ∷ s) = scan (c ∷ s) 0

positive : Option ℕ → Option ℤ
positive none = none
positive (some n) = if ltb n i64_mod then some (pos n) else none

-- -0 is 0.
negative : Option ℕ → Option ℤ
negative none = none
negative (some zero) = some (pos 0)
negative (some (suc n)) = if ltb n i64_mod then some (negsuc n) else none

pub parse_int : Bytes → Option ℤ
parse_int [] = none
parse_int (c ∷ s) =
    if c == b'-'
    then negative (parse_uint s)
    else if c == b'+'
    then positive (parse_uint s)
    else positive (parse_uint (c ∷ s))

-- `int64(u)` and `uint64(i)`.
unfoldable pub to_int64 : ℕ → ℤ
to_int64 u = if ltb u i64_mod then pos u else negsuc (u64_mod - u - 1)

unfoldable pub to_uint64 : ℤ → ℕ
to_uint64 (pos n) = n
to_uint64 (negsuc n) = u64_mod - (n + 1)

-- `BigEndian.Uint64` reads eight bytes; `PutUint64` writes them.
unfoldable pub uint64 : Bytes → ℕ → ℕ
uint64 [] n = n
uint64 (c ∷ s) n = uint64 s (n * 256 + c)

unfoldable pub put_uint64 : ℕ → ℕ → Bytes → Bytes
put_uint64 zero n out = out
put_uint64 (suc k) n out = put_uint64 k (n / 256) (n % 256 ∷ out)

-- A number in range, as int64 has it.
abbrev pub IsInt64 : ℤ → Type 0
IsInt64 (pos n) = n < i64_mod
IsInt64 (negsuc n) = n < i64_mod

scan_digits : (f n : ℕ) (out : Bytes) → n ≤ f → n < u64_mod → scan (digits f n out) 0 ≡ scan out n
unfolding digits
scan_digits zero n out h k = unfold scan in ground arith
scan_digits (suc f) n out h k = elim (Bool-cases (ltb n 10)) [
  | inl small ↦ rw small (unfold scan in ground arith)
  | inr large ↦
      rw large
        (rw (scan_digits f (n / 10) _ (ground arith) (omega arith)) (unfold scan in ground arith))
]

digits_cons : (f n : ℕ) (out : Bytes) → (c : ℕ) × (s : Bytes) × (digits f n out ≡ c ∷ s)
unfolding digits
digits_cons zero n out = (b'0' + n % 10, out, refl)
digits_cons (suc f) n out = elim (Bool-cases (ltb n 10)) [
  | inl small ↦ (b'0' + n % 10, out, rw small)
  | inr large ↦ let (c, s, e) = digits_cons f (n / 10) ((b'0' + n % 10) ∷ out) in (c, s, rw large e)
]

-- The digits spell the number, and each is one of 0 to 9.
abbrev pub IsDigit : ℕ → Type 0
IsDigit c = (b'0' ≤ c) × (c ≤ b'9')

pub digits-IsDigit : (f n : ℕ) (out : Bytes) → All IsDigit out → All IsDigit (digits f n out)
unfolding digits
digits-IsDigit zero n out h = (omega arith, h)
digits-IsDigit (suc f) n out h = elim (Bool-cases (ltb n 10)) [
  | inl small ↦ rw small (omega arith, h)
  | inr large ↦ rw large (digits-IsDigit f (n / 10) _ (omega arith, h))
]

parse_uint-digits : (n : ℕ) → n < u64_mod → parse_uint (digits n n []) ≡ some n
unfolding parse_uint
parse_uint-digits n h =
    let (c, s, e) = digits_cons n n [] in
    rw e (let r = scan_digits n n [] (omega arith) h in unfold scan in rw e at r)

-- Every int64 is read back from its decimal form.
pub parse_int-format_int : (z : ℤ) → IsInt64 z → parse_int (format_int z) ≡ some z
unfolding format_int
parse_int-format_int (pos n) h =
    let (c, s, e) = digits_cons n n [] in
    let d : All IsDigit (c ∷ s) = rw e at (digits-IsDigit n n [] tt) in
    let r : parse_uint (c ∷ s) ≡ some n = rw e at (parse_uint-digits n (omega arith)) in
    rw e (unfold parse_int positive in ground arith)
parse_int-format_int (negsuc n) h =
    unfold parse_int negative in ground (arith, parse_uint-digits (suc n) (omega arith))

pub to_uint64-to_int64 : (u : ℕ) → u < u64_mod → to_uint64 (to_int64 u) ≡ u
unfolding to_uint64 to_int64
to_uint64-to_int64 u h = ground arith

pub to_int64-to_uint64 : (z : ℤ) → IsInt64 z → to_int64 (to_uint64 z) ≡ z
unfolding to_uint64 to_int64
to_int64-to_uint64 (pos n) h = ground arith
to_int64-to_uint64 (negsuc n) h = ground arith

pub to_int64-IsInt64 : (u : ℕ) → u < u64_mod → IsInt64 (to_int64 u)
unfolding to_int64
to_int64-IsInt64 u h = ground arith

-- 256 to the power `k`.
abbrev byte_weight : ℕ → ℕ
byte_weight zero = 1
byte_weight (suc k) = 256 * byte_weight k

put_uint64_step :
    (k n c : ℕ) (out : Bytes)
    → c < 256
    → put_uint64 (suc k) (n * 256 + c) out ≡ put_uint64 k n (c ∷ out)
unfolding put_uint64
put_uint64_step k n c out h =
    let quotient : (n * 256 + c) / 256 ≡ n = omega arith in
    let remainder : (n * 256 + c) % 256 ≡ c = omega arith in rw (quotient, remainder)

put_uint64-uint64_loop :
    (m k : ℕ) (s out : Bytes) (n : ℕ)
    → m ≡ length s + k
    → IsBytes s
    → put_uint64 m (uint64 s n) out ≡ put_uint64 k n (s ++ out)
unfolding uint64
put_uint64-uint64_loop m k [] out n e h = let e' : m ≡ k = omega arith in rw e'
put_uint64-uint64_loop m k (c ∷ s) out n e (hc, hs) =
    put_uint64-uint64_loop m (suc k) s out (n * 256 + c) (omega arith) hs
    ∙ put_uint64_step k n c (s ++ out) hc

-- Eight bytes are read back from the number that they spell.
pub put_uint64-uint64 : (s : Bytes) → length s ≡ 8 → IsBytes s → put_uint64 8 (uint64 s 0) [] ≡ s
put_uint64-uint64 s e h =
    put_uint64-uint64_loop 8 0 s [] 0 (omega (arith, e)) h ∙ unfold put_uint64 in append-nil s

uint64_bound : (s : Bytes) (n : ℕ) → IsBytes s → uint64 s n < (n + 1) * byte_weight (length s)
unfolding uint64
uint64_bound [] n h = omega arith
uint64_bound (c ∷ s) n (hc, hs) = let ih = uint64_bound s (n * 256 + c) hs in grind arith

pub uint64-lt : (s : Bytes) → length s ≡ 8 → IsBytes s → uint64 s 0 < u64_mod
uint64-lt s e h = let b = uint64_bound s 0 h in let b' = rw e at b in omega arith

uint64-put_uint64_loop :
    (k n : ℕ) (out : Bytes) → n < byte_weight k → uint64 (put_uint64 k n out) 0 ≡ uint64 out n
unfolding put_uint64
uint64-put_uint64_loop zero n out h = let e : n ≡ 0 = omega arith in rw e
uint64-put_uint64_loop (suc k) n out h =
    uint64-put_uint64_loop k (n / 256) (n % 256 ∷ out) (omega arith)
    ∙ unfold uint64 in ap (uint64 out) (omega arith)

-- A number is read back from its eight bytes.
pub uint64-put_uint64 : (u : ℕ) → u < u64_mod → uint64 (put_uint64 8 u []) 0 ≡ u
uint64-put_uint64 u h = uint64-put_uint64_loop 8 u [] h ∙ unfold uint64 in refl

put_uint64-IsBytes : (k n : ℕ) (out : Bytes) → IsBytes out → IsBytes (put_uint64 k n out)
unfolding put_uint64
put_uint64-IsBytes zero n out h = h
put_uint64-IsBytes (suc k) n out h = put_uint64-IsBytes k (n / 256) _ (omega arith, h)

length-put_uint64 : (k n : ℕ) (out : Bytes) → length (put_uint64 k n out) ≡ k + length out
unfolding put_uint64
length-put_uint64 zero n out = omega arith
length-put_uint64 (suc k) n out = omega (arith, length-put_uint64 k (n / 256) (n % 256 ∷ out))

pub put_uint64-shape : (u : ℕ) → (length (put_uint64 8 u []) ≡ 8) × IsBytes (put_uint64 8 u [])
put_uint64-shape u = (length-put_uint64 8 u [], put_uint64-IsBytes 8 u [] tt)

digits-ascii : (n : ℕ) → All (λ c. c < 128) (digits n n [])
digits-ascii n = All-weaken (λ c h. omega arith) (digits n n []) (digits-IsDigit n n [] tt)

-- A printed number is ASCII.
pub format_int-ascii : (z : ℤ) → All (λ c. c < 128) (format_int z)
unfolding format_int
format_int-ascii (pos n) = digits-ascii n
format_int-ascii (negsuc n) = (omega arith, digits-ascii (suc n))
