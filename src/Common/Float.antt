-- ===== src/Common/Float.antt =====
-- The 32-bit floats of the source, as an interface: the operations and tests it uses. No law is
-- part of the interface; a theorem that needs one names it among its hypotheses.
use Prim.Native.Nat.{ℕ, ◌+◌, ◌-◌, ◌*◌, ◌/◌, ◌^◌, min, max}
use mathlib.Core.Bool.{Bool}
use openlive.Common.Tests.{ltb, leb, ◌==◌}

pub record Float : Type 1 where
  pub F32 : Type 0
  -- `lit n k` is the literal n / 10 ^ k, and `of_nat n` the conversion `n as f32`.
  pub lit : ℕ → ℕ → F32
  pub of_nat : ℕ → F32
  pub neg : F32 → F32
  pub add : F32 → F32 → F32
  pub sub : F32 → F32 → F32
  pub mul : F32 → F32 → F32
  pub div : F32 → F32 → F32
  -- `mul_add a b c` is a * b + c.
  pub mul_add : F32 → F32 → F32 → F32
  pub fmin : F32 → F32 → F32
  pub fmax : F32 → F32 → F32
  -- `clamp x lo hi`.
  pub clamp : F32 → F32 → F32 → F32
  -- `a < b`, `a <= b` and `a == b`; all are false where a side is not a number.
  pub flt : F32 → F32 → Bool
  pub fle : F32 → F32 → Bool
  pub feq : F32 → F32 → Bool
  -- `f32::NAN`, `f32::is_finite`, and the bit pattern that `to_le_bytes` writes.
  pub nan : F32
  pub is_finite : F32 → Bool
  pub to_bits : F32 → ℕ
  pub from_bits : ℕ → F32

-- Thousandths from 0 upwards, with 2^31 for the value that is no number: a concrete instance, on
-- which the tests run.
abbrev pub milli : Float
milli = record {
  F32 = ℕ;
  lit = λ n k. n * 1000 / 10 ^ k;
  of_nat = λ n. n * 1000;
  neg = λ a. 0;
  add = λ a b. a + b;
  sub = λ a b. a - b;
  mul = λ a b. a * b / 1000;
  div = λ a b. a * 1000 / b;
  mul_add = λ a b c. a * b / 1000 + c;
  fmin = min;
  fmax = max;
  clamp = λ x lo hi. min (max x lo) hi;
  flt = ltb;
  fle = leb;
  feq = λ a b. a == b;
  nan = 2 ^ 31;
  is_finite = λ a. ltb a (2 ^ 31);
  to_bits = λ a. a;
  from_bits = λ n. n;
}
