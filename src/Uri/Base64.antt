-- ===== src/Uri/Base64.antt =====
-- encoding/base64's `RawURLEncoding` and its `Strict` decoder, which uri/key.go uses.
use sink_go.Base.{
  ℕ, ◌+◌, ◌-◌, ◌*◌, ◌/◌, ◌%◌, ◌<◌, ◌≡◌, ◌≢◌, refl, Bool, false, ◌&&◌, ◌||◌, Option, none, some, [],
  ◌∷◌, arith, ltb, leb, ◌==◌, if◌then◌else◌, Bytes, IsBytes, All, All-weaken, codes,
}

-- "A…Za…z0…9-_"[d]
to_char : ℕ → ℕ
to_char d =
    if ltb d 26
    then b'A' + d
    else if ltb d 52
    then b'a' + (d - 26)
    else if ltb d 62
    then b'0' + (d - 52)
    else if d == 62
    then b'-'
    else b'_'

from_char : ℕ → Option ℕ
from_char c =
    if leb b'A' c && leb c b'Z'
    then some (c - b'A')
    else if leb b'a' c && leb c b'z'
    then some (c - b'a' + 26)
    else if leb b'0' c && leb c b'9'
    then some (c - b'0' + 52)
    else if c == b'-'
    then some 62
    else if c == b'_'
    then some 63
    else none

-- Three bytes are four digits; one or two bytes at the end are two or three.
pub encode : Bytes → Bytes
encode [] = []
encode (a ∷ []) = to_char (a / 4) ∷ to_char (a % 4 * 16) ∷ []
encode (a ∷ b ∷ []) = to_char (a / 4) ∷ to_char (a % 4 * 16 + b / 16) ∷ to_char (b % 16 * 4) ∷ []
encode (a ∷ b ∷ c ∷ s) =
    to_char (a / 4)
    ∷ to_char (a % 4 * 16 + b / 16)
    ∷ to_char (b % 16 * 4 + c / 64)
    ∷ to_char (c % 64)
    ∷ encode s

-- The decoder skips carriage returns and line feeds, also when it is strict.
is_line_break : ℕ → Bool
is_line_break c = c == 10 || c == 13

strip : Bytes → Bytes
strip [] = []
strip (c ∷ s) = if is_line_break c then strip s else c ∷ strip s

-- A strict decoder wants the bits behind the last byte to be zero.
last_two : Option ℕ → Option ℕ → Option Bytes
last_two (some w) (some x) = if x % 16 == 0 then some ((w * 4 + x / 16) ∷ []) else none
last_two _ _ = none

last_three : Option ℕ → Option ℕ → Option ℕ → Option Bytes
last_three (some w) (some x) (some y) =
    if y % 4 == 0 then some ((w * 4 + x / 16) ∷ (x % 16 * 16 + y / 4) ∷ []) else none
last_three _ _ _ = none

quantum : Option ℕ → Option ℕ → Option ℕ → Option ℕ → Option Bytes → Option Bytes
quantum (some w) (some x) (some y) (some z) (some s) =
    some ((w * 4 + x / 16) ∷ (x % 16 * 16 + y / 4) ∷ (y % 4 * 64 + z) ∷ s)
quantum _ _ _ _ _ = none

decode_digits : Bytes → Option Bytes
decode_digits [] = some []
decode_digits (a ∷ []) = none
decode_digits (a ∷ b ∷ []) = last_two (from_char a) (from_char b)
decode_digits (a ∷ b ∷ c ∷ []) = last_three (from_char a) (from_char b) (from_char c)
decode_digits (a ∷ b ∷ c ∷ d ∷ s) =
    quantum (from_char a) (from_char b) (from_char c) (from_char d) (decode_digits s)

-- `none` is `CorruptInputError`.
pub decode_strict : Bytes → Option Bytes
decode_strict s = decode_digits (strip s)

from_char-to_char : (d : ℕ) → d < 64 → from_char (to_char d) ≡ some d
unfolding from_char to_char
from_char-to_char d h = ground arith

-- What the alphabet is made of: ASCII, with no line break and no colon.
abbrev IsPlain : ℕ → Type 0
IsPlain c = (c < 128) × (is_line_break c ≡ false) × (c ≢ b':')

to_char-IsPlain : (d : ℕ) → IsPlain (to_char d)
unfolding to_char is_line_break
to_char-IsPlain d = ground arith

encode-IsPlain : (s : Bytes) → All IsPlain (encode s)
unfolding encode
encode-IsPlain [] = tt
encode-IsPlain (a ∷ []) = (to_char-IsPlain _, (to_char-IsPlain _, tt))
encode-IsPlain (a ∷ b ∷ []) = (to_char-IsPlain _, (to_char-IsPlain _, (to_char-IsPlain _, tt)))
encode-IsPlain (a ∷ b ∷ c ∷ s) = (
  to_char-IsPlain _,
  (to_char-IsPlain _, (to_char-IsPlain _, (to_char-IsPlain _, encode-IsPlain s))),
)

-- The alphabet holds no colon, and is ASCII.
pub encode-ascii : (s : Bytes) → All (λ c. (c < 128) × (c ≢ b':')) (encode s)
encode-ascii s = All-weaken (λ c h. (h.0, h.2)) (encode s) (encode-IsPlain s)

strip_plain : (s : Bytes) → All IsPlain s → strip s ≡ s
unfolding strip
strip_plain [] h = refl
strip_plain (c ∷ s) (hc, hs) = ground (arith, strip_plain s hs)

decode_digits-encode : (s : Bytes) → IsBytes s → decode_digits (encode s) ≡ some s
unfolding decode_digits encode last_two last_three quantum
decode_digits-encode [] h = refl
decode_digits-encode (a ∷ []) (ha, _) =
    ground
      (arith, from_char-to_char (a / 4) (omega arith), from_char-to_char (a % 4 * 16) (omega arith))
decode_digits-encode (a ∷ b ∷ []) (ha, (hb, _)) = ground (
  arith,
  from_char-to_char (a / 4) (omega arith),
  from_char-to_char (a % 4 * 16 + b / 16) (omega arith),
  from_char-to_char (b % 16 * 4) (omega arith),
)
decode_digits-encode (a ∷ b ∷ c ∷ s) (ha, (hb, (hc, hs))) = ground (
  arith,
  from_char-to_char (a / 4) (omega arith),
  from_char-to_char (a % 4 * 16 + b / 16) (omega arith),
  from_char-to_char (b % 16 * 4 + c / 64) (omega arith),
  from_char-to_char (c % 64) (omega arith),
  decode_digits-encode s hs,
)

-- Every byte string is read back from its base64 form.
pub decode_strict-encode : (s : Bytes) → IsBytes s → decode_strict (encode s) ≡ some s
unfolding decode_strict
decode_strict-encode s h = rw (strip_plain (encode s) (encode-IsPlain s)) (decode_digits-encode s h)

encode_examples :
    (encode (codes "light w") ≡ codes "bGlnaHQgdw")
    × (decode_strict (codes "bGlnaHQgdx") ≡ none)
    × (decode_strict (codes "bGln\naHQgdw") ≡ some (codes "light w"))
unfolding encode decode_strict to_char from_char strip is_line_break decode_digits last_two quantum
encode_examples = (refl, refl, refl)
