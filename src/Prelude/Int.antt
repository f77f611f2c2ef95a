-- ===== src/Prelude/Int.antt =====
-- Python's integers, over the native numbers and under the library's names (its ℤ stands on the
-- unary ℕ), with the floor division of `//`.
use Prim.Native.Nat.{ℕ, zero, suc, ◌+◌, ◌-◌, ◌*◌, ◌/◌, ◌≤◌, ◌<◌}
use mathlib.Core.Path.{◌≡◌, refl, sym}
use mathlib.Core.Bool.{Bool}
use native.Mathlib.Omega.{arith}
use compound_liquidation.Prelude.Tests.{ltb, leb, ◌==◌, if◌then◌else◌}
use compound_liquidation.Prelude.Errors.{Result, ok, err, zero_division, ok_injective}

-- `negsuc n` is -(n + 1).
pub data ℤ : Type 0 where
  pos : ℕ → ℤ
  negsuc : ℕ → ℤ

abbrev pub pos_part : ℤ → ℕ
pos_part (pos n) = n
pos_part (negsuc n) = 0

abbrev pub neg_part : ℤ → ℕ
neg_part (pos n) = 0
neg_part (negsuc n) = suc n

-- a - b, as an integer.
abbrev pub sub_ℕ : ℕ → ℕ → ℤ
sub_ℕ a b = if leb b a then pos (a - b) else negsuc (b - a - 1)

infixl 65 ◌+ℤ◌ ◌-ℤ◌
infixl 70 ◌*ℤ◌
infix 50 ◌≤ℤ◌
unfoldable pub ◌+ℤ◌ : ℤ → ℤ → ℤ
a +ℤ b = sub_ℕ (pos_part a + pos_part b) (neg_part a + neg_part b)

unfoldable pub ◌-ℤ◌ : ℤ → ℤ → ℤ
a -ℤ b = sub_ℕ (pos_part a + neg_part b) (neg_part a + pos_part b)

unfoldable pub ◌*ℤ◌ : ℤ → ℤ → ℤ
a *ℤ b =
    sub_ℕ (pos_part a * pos_part b + neg_part a * neg_part b)
      (pos_part a * neg_part b + neg_part a * pos_part b)

abbrev pub ◌≤ℤ◌ : ℤ → ℤ → Type 0
a ≤ℤ b = pos_part a + neg_part b ≤ pos_part b + neg_part a

abbrev pub ltb_ℤ : ℤ → ℤ → Bool
ltb_ℤ a b = ltb (pos_part a + neg_part b) (pos_part b + neg_part a)

abbrev pub leb_ℤ : ℤ → ℤ → Bool
leb_ℤ a b = leb (pos_part a + neg_part b) (pos_part b + neg_part a)

abbrev pub eqb_ℤ : ℤ → ℤ → Bool
eqb_ℤ a b = pos_part a + neg_part b == pos_part b + neg_part a

-- `a // d` for a divisor above zero: -(n + 1) // d is -(n // d + 1)
unfoldable pub fdiv : ℤ → ℕ → ℤ
fdiv (pos n) d = pos (n / d)
fdiv (negsuc n) d = negsuc (n / d)

-- `a // b`
unfoldable pub floor_div : ℤ → ℤ → Result ℤ
floor_div a (pos zero) = err zero_division
floor_div a (pos (suc d)) = ok (fdiv a (suc d))
floor_div a (negsuc d) = ok (fdiv (pos 0 -ℤ a) (suc d))

-- `-a`, and `abs(a)`
abbrev pub neg : ℤ → ℤ
neg a = pos 0 -ℤ a

pub +ℤ_parts :
    (a b : ℤ)
    → pos_part (a +ℤ b) + neg_part a + neg_part b ≡ neg_part (a +ℤ b) + pos_part a + pos_part b
unfolding ◌+ℤ◌
+ℤ_parts a b = ground arith

pub -ℤ_parts :
    (a b : ℤ)
    → pos_part (a -ℤ b) + neg_part a + pos_part b ≡ neg_part (a -ℤ b) + pos_part a + neg_part b
unfolding ◌-ℤ◌
-ℤ_parts a b = ground arith

pub eq_of_parts : (a b : ℤ) → pos_part a + neg_part b ≡ pos_part b + neg_part a → a ≡ b
eq_of_parts a b h = ground arith

-- an equation of integers, in the form that `omega` reads
pub parts_of_eq : {a b : ℤ} → a ≡ b → pos_part a + neg_part b ≡ pos_part b + neg_part a
parts_of_eq h = ground arith

pub ruleset int_laws = (arith, +ℤ_parts, -ℤ_parts, eq_of_parts)

pub *ℤ-pos : (a b : ℕ) → pos a *ℤ pos b ≡ pos (a * b)
unfolding ◌*ℤ◌
*ℤ-pos a b = ground arith

pub +ℤ-pos : (a b : ℕ) → pos a +ℤ pos b ≡ pos (a + b)
+ℤ-pos a b = omega int_laws

pub fdiv-pos : (a d : ℕ) → fdiv (pos a) d ≡ pos (a / d)
unfolding fdiv
fdiv-pos a d = refl

-- a product of numbers that are not negative is not negative
pub *ℤ_nonneg : (a b : ℤ) → pos 0 ≤ℤ a → pos 0 ≤ℤ b → pos 0 ≤ℤ a *ℤ b
*ℤ_nonneg (pos a) (pos b) h k = rw *ℤ-pos (omega arith)
*ℤ_nonneg (pos a) (negsuc b) h k = absurd (omega arith)
*ℤ_nonneg (negsuc a) b h k = absurd (omega arith)

pub fdiv_nonneg : (a : ℤ) (d : ℕ) → pos 0 ≤ℤ a → pos 0 ≤ℤ fdiv a d
unfolding fdiv
fdiv_nonneg (pos a) d h = omega arith
fdiv_nonneg (negsuc a) d h = absurd (omega arith)

pub +ℤ_nonneg : (a b : ℤ) → pos 0 ≤ℤ a → pos 0 ≤ℤ b → pos 0 ≤ℤ a +ℤ b
+ℤ_nonneg a b h k = omega int_laws

-- the remainder of a floor division lies between zero and the divisor
pub fdiv_bounds :
    (a : ℤ) (d : ℕ) → 0 < d → (pos d *ℤ fdiv a d ≤ℤ a) × (a +ℤ pos 1 ≤ℤ pos d *ℤ fdiv a d +ℤ pos d)
unfolding fdiv ◌*ℤ◌ ◌+ℤ◌
fdiv_bounds (pos n) d h = grind arith
fdiv_bounds (negsuc n) d h = grind arith

pub floor_div-pos : (n d : ℕ) → 0 < d → floor_div (pos n) (pos d) ≡ ok (pos (n / d))
unfolding floor_div fdiv
floor_div-pos n zero h = absurd (omega arith)
floor_div-pos n (suc d) h = refl

-- the quotient of numbers that are not negative, where there is one
pub floor_div_nonneg : (a b q : ℤ) → pos 0 ≤ℤ a → pos 0 ≤ℤ b → floor_div a b ≡ ok q → pos 0 ≤ℤ q
unfolding floor_div
floor_div_nonneg a (pos zero) q h k e = cc
floor_div_nonneg a (pos (suc d)) q h k e = rw (sym (ok_injective _ _ e)) (fdiv_nonneg a (suc d) h)
floor_div_nonneg a (negsuc d) q h k e = absurd (omega arith)

-- a number that is not negative, as a natural one
pub nonneg-pos : (a : ℤ) → pos 0 ≤ℤ a → a ≡ pos (pos_part a)
nonneg-pos a h = ground arith
