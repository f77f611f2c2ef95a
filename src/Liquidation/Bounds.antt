-- ===== src/Liquidation/Bounds.antt =====
-- About the pairs of one liquidation_simulation of compound.py, against the debt that may be repaid and
-- the collateral that may be taken.
use compound_liquidation.Prelude.{
  ℕ, zero, suc, ◌*◌, ◌/◌, ◌≤◌, ◌<◌, ◌≡◌, refl, sym, ◌∙◌, String, ok, ok_injective, >>=-eq-ok, arith,
  Bool-cases, inl, inr,
}
use compound_liquidation.Prelude.Int.{
  floor_div-pos, ℤ, pos, negsuc, ◌*ℤ◌, ◌≤ℤ◌, ltb_ℤ, floor_div, fdiv, floor_div_nonneg, *ℤ-pos,
  int_laws, *ℤ_nonneg, fdiv_nonneg,
}
use compound_liquidation.Config.{exp_scale, treasury_percent}
use compound_liquidation.Liquidation.{
  mul_scalar_truncate, mul_scalar_truncate_reverse, adjusted, seize_ratio, LiqPair, pair_of,
}

div_le : (n d : ℕ) → n / d ≤ n
div_le n d = grind arith

div-mul : (n d : ℕ) → n / d * d ≤ n
div-mul n d = grind arith

div_bound : (n d q : ℕ) → 0 < d → n ≤ q * d → n / d ≤ q
div_bound n d q h k = grind arith

factor_positive : (a b d : ℕ) {n : ℕ} → n < a * b / d → 0 < a
factor_positive zero b d h = absurd (grind arith)
factor_positive (suc a) b d h = omega arith

-- `adjusted` on numbers that are not negative
adjusted-bounds :
    (balance ratio repay : ℕ)
    → (s p : ℕ) × (adjusted (pos balance) (pos ratio) (pos repay) ≡ ok (pos s, pos p))
      × (s ≤ balance)
      × (p ≤ repay)
      × (ratio * p / exp_scale ≤ balance)
unfolding adjusted mul_scalar_truncate mul_scalar_truncate_reverse fdiv
adjusted-bounds balance ratio repay =
    let seize = ratio * repay / exp_scale in
    elim (Bool-cases (ltb_ℤ (pos balance) (pos seize))) [
      | inl short ↦
          let less : balance < seize = ground arith in
          let some_ratio : 0 < ratio = factor_positive ratio repay exp_scale less in
          let p = balance * exp_scale / ratio in
          (
            balance,
            p,
            rw
                (
                  *ℤ-pos ratio repay,
                  short,
                  *ℤ-pos balance exp_scale,
                  floor_div-pos (balance * exp_scale) ratio some_ratio,
                )
                refl,
            omega arith,
            div_bound (balance * exp_scale) ratio repay some_ratio
                (omega (arith, div-mul (ratio * repay) exp_scale)),
            div_bound (ratio * p) exp_scale balance (omega arith)
                (omega (arith, div-mul (balance * exp_scale) ratio)),
          )
      | inr enough ↦
          let at_most : seize ≤ balance = ground arith in
          (seize, repay, rw (*ℤ-pos ratio repay, enough) refl, at_most, omega arith, at_most)
    ]

adjusted-nonneg :
    (balance ratio repay : ℤ) (amounts : ℤ × ℤ)
    → pos 0 ≤ℤ balance
    → pos 0 ≤ℤ ratio
    → pos 0 ≤ℤ repay
    → adjusted balance ratio repay ≡ ok amounts
    → (pos 0 ≤ℤ amounts.0)
      × (amounts.0 ≤ℤ balance)
      × (amounts.1 ≤ℤ repay)
      × (mul_scalar_truncate ratio amounts.1 ≤ℤ balance)
unfolding mul_scalar_truncate fdiv
adjusted-nonneg (pos b) (pos r) (pos q) amounts hb hr hq e =
    let (s, p, now, small, less, within) = adjusted-bounds b r q in
    let same = ok_injective _ _ (sym now ∙ e) in
    rw (← same) (omega arith, omega arith, omega arith, rw (*ℤ-pos r p) (omega arith))
adjusted-nonneg (negsuc b) ratio repay amounts hb hr hq e = absurd (omega arith)
adjusted-nonneg (pos b) (negsuc r) repay amounts hb hr hq e = absurd (omega arith)
adjusted-nonneg (pos b) (pos r) (negsuc q) amounts hb hr hq e = absurd (omega arith)

-- The market values that the pair is computed from are not negative.
pub record AreNonneg (liq_incentive debt_price price exchange_rate balance repay : ℤ) : Type 0 where
  pub incentive_nonneg : pos 0 ≤ℤ liq_incentive
  pub debt_price_nonneg : pos 0 ≤ℤ debt_price
  pub price_nonneg : pos 0 ≤ℤ price
  pub rate_nonneg : pos 0 ≤ℤ exchange_rate
  pub balance_nonneg : pos 0 ≤ℤ balance
  pub repay_nonneg : pos 0 ≤ℤ repay

-- The pair repays at most `repay`, and what the market seizes for that is within the balance, as is
-- what is left of it after the treasury's part.
pub pair_of-bounds :
    (liq_incentive debt_price price exchange_rate balance repay : ℤ)
    (col_ctoken debt_ctoken : String) (pair : LiqPair)
    → AreNonneg liq_incentive debt_price price exchange_rate balance repay
    → pair_of liq_incentive debt_price price exchange_rate balance repay col_ctoken debt_ctoken
      ≡ ok pair
    → (ratio : ℤ) × (seize_ratio liq_incentive debt_price price exchange_rate ≡ ok ratio)
      × (pair.repay_amount ≤ℤ repay)
      × (mul_scalar_truncate ratio pair.repay_amount ≤ℤ balance)
      × (pair.seize_tokens ≤ℤ balance)
      × (pair.col_ctoken ≡ col_ctoken)
      × (pair.debt_ctoken ≡ debt_ctoken)
unfolding pair_of seize_ratio
pair_of-bounds liq_incentive debt_price price exchange_rate balance repay col_ctoken debt_ctoken
      pair nn e =
    let (ratio, hr, e') =
      >>=-eq-ok (seize_ratio liq_incentive debt_price price exchange_rate) _ e in
    let (amounts, ha, e'') = >>=-eq-ok (adjusted balance ratio repay) _ e' in
    let (fee, hf, last) =
      >>=-eq-ok (floor_div (amounts.0 *ℤ pos treasury_percent) liq_incentive) _ e'' in
    let value_nonneg =
      fdiv_nonneg (liq_incentive *ℤ debt_price) exp_scale
        (*ℤ_nonneg liq_incentive debt_price nn.incentive_nonneg nn.debt_price_nonneg) in
    let price_nonneg =
      fdiv_nonneg (price *ℤ exchange_rate) exp_scale
        (*ℤ_nonneg price exchange_rate nn.price_nonneg nn.rate_nonneg) in
    let ratio_nonneg =
      floor_div_nonneg _ _ ratio (*ℤ_nonneg _ (pos exp_scale) value_nonneg (omega arith))
        price_nonneg hr in
    let (seize_nonneg, seized, repaid, within) =
      adjusted-nonneg balance ratio repay amounts nn.balance_nonneg ratio_nonneg nn.repay_nonneg
        ha in
    let fee_nonneg =
      floor_div_nonneg _ _ fee
        (*ℤ_nonneg amounts.0 (pos treasury_percent) seize_nonneg (omega arith)) nn.incentive_nonneg
        hf in
    let same = ok_injective _ _ last in
    rw (← same) (ratio, hr, repaid, within, omega int_laws, refl, refl)
