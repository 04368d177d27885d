-- ===== src/Common/Words.antt =====
-- Machine integers: the bounds of `u32` and `u64`, wrapping and saturating addition, and the
-- subtraction that stops at 0 (`saturating_sub` is `◌-◌` of the native numbers).
use Prim.Native.Nat.{ℕ, ◌+◌, ◌%◌, min}

abbrev pub u16_mod : ℕ
u16_mod = 65536

abbrev pub u32_mod : ℕ
u32_mod = 4294967296

abbrev pub u64_mod : ℕ
u64_mod = 18446744073709551616

abbrev pub u64_max : ℕ
u64_max = 18446744073709551615

abbrev pub u32_max : ℕ
u32_max = 4294967295

-- `u64::saturating_add` and `u32::saturating_add`.
abbrev pub sat_add64 : ℕ → ℕ → ℕ
sat_add64 a b = min (a + b) u64_max

abbrev pub sat_add32 : ℕ → ℕ → ℕ
sat_add32 a b = min (a + b) u32_max

-- Plain `+` on machine words, as a release build runs it.
abbrev pub wrap_add64 : ℕ → ℕ → ℕ
wrap_add64 a b = (a + b) % u64_mod

abbrev pub wrap_add32 : ℕ → ℕ → ℕ
wrap_add32 a b = (a + b) % u32_mod
