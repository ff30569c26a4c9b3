-- ===== src/Float.antt =====
-- Go's float64 as an interface: a type with the operations and comparisons that the program uses.
-- Definitions take it as an instance, so they hold of every arithmetic, rounding and NaN included.
-- `FloatLaws` states the IEEE 754 facts that some theorems rest on.
use statlite.Prelude.{
  ℕ, ◌+◌, ◌-◌, ◌*◌, ◌/◌, ◌≤◌, ◌<◌, ◌≡◌, refl, Bool, true, false, arith, ltb, leb, ◌==◌,
}

pub record Float64 (F : Type 0) : Type 0 where
  pub zero_f : F
  pub of_nat : ℕ → F
  pub add : F → F → F
  pub sub : F → F → F
  pub mul : F → F → F
  pub div : F → F → F
  pub trunc : F → F
  -- a < b, a <= b and a == b; all false where an operand is NaN.
  pub flt : F → F → Bool
  pub fle : F → F → Bool
  pub feq : F → F → Bool
  -- math.IsNaN and math.IsInf(x, 0)
  pub is_nan : F → Bool
  pub is_inf : F → Bool

-- What IEEE 754 promises: two operands that are no NaN are ordered one way or the other, zero is no
-- NaN, and a quotient of 0 <= a <= b by b > 0 rounds into [0, 1].
pub record FloatLaws {F : Type 0} (fl : Float64 F) : Type 0 where
  pub zero_not_nan : fl.is_nan fl.zero_f ≡ false
  pub le_of_not_lt :
      (a b : F) → fl.is_nan a ≡ false → fl.is_nan b ≡ false → fl.flt a b ≡ false → fl.fle b a ≡ true
  pub lt_of_not_le :
      (a b : F) → fl.is_nan a ≡ false → fl.is_nan b ≡ false → fl.fle a b ≡ false → fl.flt b a ≡ true
  pub div_nonneg :
      (a b : F)
      → fl.fle fl.zero_f a ≡ true
      → fl.flt fl.zero_f b ≡ true
      → fl.fle a b ≡ true
      → fl.fle fl.zero_f (fl.div a b) ≡ true
  pub div_le_one :
      (a b : F)
      → fl.fle fl.zero_f a ≡ true
      → fl.flt fl.zero_f b ≡ true
      → fl.fle a b ≡ true
      → fl.fle (fl.div a b) (fl.of_nat 1) ≡ true

-- Exact arithmetic on the naturals, with no NaN, for concrete runs: `sub` stops at 0 there.
instance abbrev pub nat_float : Float64 ℕ
nat_float = record {
  zero_f = 0;
  of_nat = λ n. n;
  add = λ a b. a + b;
  sub = λ a b. a - b;
  mul = λ a b. a * b;
  div = λ a b. a / b;
  trunc = λ a. a;
  flt = ltb;
  fle = leb;
  feq = ◌==◌;
  is_nan = λ _. false;
  is_inf = λ _. false;
}

div-le-one : (a b : ℕ) → 0 < b → a ≤ b → a / b ≤ 1
div-le-one a b p h = grind arith

pub nat_float-FloatLaws : FloatLaws nat_float
nat_float-FloatLaws = record {
  zero_not_nan = refl;
  le_of_not_lt = λ a b _ _ h. ground arith;
  lt_of_not_le = λ a b _ _ h. ground arith;
  div_nonneg = λ a b _ _ _. ground arith;
  div_le_one = λ a b _ p h. ground (arith, div-le-one a b);
}
