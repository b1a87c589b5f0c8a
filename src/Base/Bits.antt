-- ===== src/Base/Bits.antt =====
-- Widths of the machine integers that the code uses.
use Prim.Native.Nat.{ℕ, ◌^◌}

abbrev pub u32_mod : ℕ
u32_mod = 2 ^ 32

abbrev pub u64_mod : ℕ
u64_mod = 2 ^ 64

abbrev pub i64_mod : ℕ
i64_mod = 2 ^ 63
