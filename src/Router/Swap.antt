-- ===== src/Router/Swap.antt =====
-- What SwapV2.swap_simulation promises of a constant-product pool.
use compound_liquidation.Prelude.{
  ◌⊎◌, ℕ, ◌+◌, ◌-◌, ◌*◌, ◌/◌, ◌≤◌, ◌<◌, ◌≡◌, refl, ok, arith, Bool-cases, inl, inr,
}
use compound_liquidation.Prelude.Int.{
  pos, negsuc, ◌-ℤ◌, ltb_ℤ, floor_div-pos, *ℤ-pos, int_laws, +ℤ-pos,
}
use compound_liquidation.Router.{Pool, at_pair, swap_simulation}

past_quotient : (n d : ℕ) → 0 < d → n ≤ (n / d + 1) * d
past_quotient n d h = grind arith

product_bound :
    (a out y b n : ℕ)
    → y * out * 10000 ≤ n * (a * b)
    → (a + out) * (y * 10000) ≤ a * (y * 10000 + n * b)
product_bound a out y b n h = omega arith

positive_product : (a b : ℕ) → 0 < a → 0 < b → 0 < a * b
positive_product a b h k = grind arith

-- the division of the simulation, and the product of the reserves after the swap
quotient_bound :
    (a y out b : ℕ)
    → 0 < a
    → 0 < b
    → (a + out) * (y * 10000) ≤ a * (y * 10000 + (y * out * 10000 / (a * b) + 1) * b)
quotient_bound a y out b h k =
    product_bound a out y b _ (past_quotient (y * out * 10000) (a * b) (positive_product a b h k))

-ℤ-pos : (a b : ℕ) → b ≤ a → pos a -ℤ pos b ≡ pos (a - b)
-ℤ-pos a b h = omega int_laws

-- For an amount above zero and a fee below 10000, swap_simulation answers -1 where the reserve is
-- below twenty times the amount, and otherwise an amount to pay in that keeps the product of the
-- reserves after the fee.
pub swap_simulation-product :
    (pool : Pool) (token_out_index x y out : ℕ)
    → at_pair pool.liquidity token_out_index ≡ pos x
    → at_pair pool.liquidity (1 - token_out_index) ≡ pos y
    → 0 < out
    → pool.fee < 10000
    → (x < out * 20) × (swap_simulation pool (pos out) token_out_index ≡ ok (negsuc 0))
      ⊎ (out * 20 ≤ x)
        × (n : ℕ) × (swap_simulation pool (pos out) token_out_index ≡ ok (pos n))
        × (x * (y * 10000) ≤ (x - out) * (y * 10000 + n * (10000 - pool.fee)))
unfolding swap_simulation
swap_simulation-product pool token_out_index x y out hx hy some_out fee =
    elim (Bool-cases (ltb_ℤ (pos x) (pos (out * 20)))) [
      | inl small ↦ inl (ground arith, rw (hx, hy, *ℤ-pos out 20, small) refl)
      | inr large ↦
          let a = x - out in
          let b = 10000 - pool.fee in
          let enough : out * 20 ≤ x = ground arith in
          let n = y * out * 10000 / (a * b) + 1 in
          let some_left : 0 < a = omega arith in
          let some_fee_left : 0 < b = omega arith in
          let whole : a + out ≡ x = omega arith in
          inr (
            enough,
            n,
            rw
                (
                  hx,
                  hy,
                  *ℤ-pos out 20,
                  large,
                  *ℤ-pos y out,
                  *ℤ-pos (y * out) 10000,
                  -ℤ-pos x out (omega arith),
                  -ℤ-pos 10000 pool.fee (omega arith),
                  *ℤ-pos a b,
                  floor_div-pos (y * out * 10000) (a * b)
                      (positive_product a b some_left some_fee_left),
                  +ℤ-pos (y * out * 10000 / (a * b)) 1,
                )
                refl,
            rw whole at (quotient_bound a y out b some_left some_fee_left),
          )
    ]
