-- ===== src/Prelude/Float.antt =====
-- Python's floats as an interface: what the program calls, and the facts about IEEE arithmetic and
-- Python's correctly rounded division of integers that the theorems rest on.
use Prim.Native.Nat.{ℕ}
use mathlib.Core.Path.{◌≡◌}
use mathlib.Core.Bool.{Bool, true, false}
use compound_liquidation.Prelude.Int.{ℤ, pos, ◌+ℤ◌, ◌≤ℤ◌}

pub record Floats (F : Type 0) : Type 0 where
  pub of_int : ℤ → F
  -- the literal m / 10^k
  pub decimal : ℤ → ℕ → F
  -- `a / b` of two integers, b other than zero
  pub div_int : ℤ → ℤ → F
  pub add : F → F → F
  pub sub : F → F → F
  pub mul : F → F → F
  pub div : F → F → F
  -- `a // b`
  pub floor_quot : F → F → F
  pub fabs : F → F
  -- `int(a)`, towards zero
  pub trunc : F → ℤ
  pub lt : F → F → Bool
  -- `a <= b` is no negation of `b < a` at NaN
  pub le : F → F → Bool
  pub eq : F → F → Bool
  -- an integer compared with a float, which Python does exactly
  pub int_lt : ℤ → F → Bool

-- The facts used: the order is strict, and rounding is monotone, so a quotient below one has a
-- dividend below its divisor.
pub record IsFloats (F : Type 0) ⦃f : Floats F⦄ : Type 0 where
  pub lt_asym : (a b : F) → f.lt a b ≡ true → f.lt b a ≡ false
  pub lt_trans : (a b c : F) → f.lt a b ≡ true → f.lt b c ≡ true → f.lt a c ≡ true
  pub div_int-lt_one :
      (a b : ℤ) → pos 1 ≤ℤ b → f.lt (f.div_int a b) (f.of_int (pos 1)) ≡ true → a +ℤ pos 1 ≤ℤ b
  pub div-one : (a : F) → f.div a (f.of_int (pos 1)) ≡ a
