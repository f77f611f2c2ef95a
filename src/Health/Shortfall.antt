-- ===== src/Health/Shortfall.antt =====
-- About what calculate_health_factor returns: when there is a factor, what it depends on, and what a
-- factor below 1 means.
use mathlib.Core.Bool.{false≢true}
use mathlib.Core.List.{Permᴰ}
use compound_liquidation.Prelude.{
  ap, sym, ok_injective, not, zero, suc, String, ◌≡◌, refl, true, false, some, [], ◌∷◌, Dict,
  lookup, ok, arith, >>=-eq-ok, Bool-cases, inl, inr,
}
use compound_liquidation.Prelude.Int.{ℤ, pos, ◌+ℤ◌, ◌≤ℤ◌, leb_ℤ, ltb_ℤ, eqb_ℤ, floor_div, negsuc}
use compound_liquidation.Prelude.Float.{Floats, IsFloats}
use compound_liquidation.Price.{CtokenPrice}
use compound_liquidation.Tokens.{CompReserve, CtokenInfos, CtokenRiskParams}
use compound_liquidation.Comet.{CometConfigs}
use compound_liquidation.Users.{HealthFactor, current_price}
use compound_liquidation.Health.{
  shares, debt_value, contribution, health_sums, UserArgs, HealthResult, factor_of,
  calculate_health_factor,
}
use compound_liquidation.Health.Sums.{health_sums-Perm}

-- The market of a token is known, with a price and a collateral factor.
abbrev pub IsKnown : Dict CtokenInfos → CometConfigs → String → Type 0
IsKnown ctk comet token =
    (infos : CtokenInfos) × (price : CtokenPrice) × (factor : ℤ) × (lookup token ctk ≡ some infos)
    × (infos.price ≡ some price)
    × (lookup token comet.ctokens_collateral_factor ≡ some factor)

abbrev pub AllKnown : Dict CtokenInfos → CometConfigs → Dict CompReserve → Type 0
AllKnown ctk comet [] = Unit
AllKnown ctk comet ((token, r) ∷ l) = IsKnown ctk comet token × AllKnown ctk comet l

debt_value-total :
    (debt borrow_index interest price : ℤ)
    → not (eqb_ℤ interest (pos 0)) ≡ true
    → (v : ℤ) × (debt_value debt borrow_index interest price ≡ ok v)
unfolding debt_value floor_div
debt_value-total debt borrow_index (pos zero) price h = absurd (false≢true h)
debt_value-total debt borrow_index (pos (suc d)) price h = (_, refl)
debt_value-total debt borrow_index (negsuc d) price h = (_, refl)

shares-total :
    (r : CompReserve) (price factor : ℤ) (risks : CtokenRiskParams)
    → (c : ℤ × ℤ) × (shares r price factor risks ≡ ok c)
unfolding shares
shares-total r price factor risks = elim (Bool-cases (not (eqb_ℤ r.debt_interest (pos 0)))) [
  | inl e ↦
      let (v, now) = debt_value-total r.debt_amount risks.borrow_index r.debt_interest price e in
      elim (Bool-cases (ltb_ℤ (pos 0) r.debt_amount)) [
        | inl e' ↦ rw (e, e', now) (_, refl)
        | inr e' ↦ rw (e, e') (_, refl)
      ]
  | inr e ↦ elim (Bool-cases (ltb_ℤ (pos 0) r.debt_amount)) [
    | inl e' ↦ rw (e, e') (_, refl)
    | inr e' ↦ rw (e, e') (_, refl)
  ]
]

module _ (ctk : Dict CtokenInfos) (comet : CometConfigs) where
  contribution-total :
      (token : String) (r : CompReserve)
      → IsKnown ctk comet token
      → (c : ℤ × ℤ) × (contribution ctk comet token r ≡ ok c)
  unfolding contribution current_price
  contribution-total token r (infos, price, factor, h, p, k) =
      let (c, e) = shares-total r price.price_current factor infos.risks in (c, rw (h, p, k) e)

  health_sums-total :
      (l : Dict CompReserve) (sums : ℤ × ℤ)
      → AllKnown ctk comet l
      → (total : ℤ × ℤ) × (health_sums ctk comet sums l ≡ ok total)
  unfolding health_sums
  health_sums-total [] sums k = (sums, refl)
  health_sums-total ((token, r) ∷ l) sums k =
      let (c, e) = contribution-total token r k.0 in rw e (health_sums-total l _ k.1)

  module _ {F : Type 0} ⦃fl : Floats F⦄ where
    -- the result at given sums
    abbrev pub result_at : ℤ → UserArgs → ℤ × ℤ → HealthResult F
    result_at now args sums =
        let sum_borrow = sums.1 +ℤ args.vai_repay in
        record {
          usr = args.usr;
          health_factor = record {
            value = factor_of sums.0 sum_borrow;
            debt_volume = sum_borrow;
            last_update = now;
          };
          reserves = args.reserves;
        }

    -- Where every reserve of the user is of a known market with a price and a collateral factor,
    -- calculate_health_factor returns a result: no division by zero is left.
    pub calculate_health_factor-total :
        (now : ℤ) (args : UserArgs)
        → AllKnown ctk comet args.reserves
        → (result : HealthResult F) × (calculate_health_factor now args ctk comet ≡ ok result)
    unfolding calculate_health_factor
    calculate_health_factor-total now args k =
        let (total, e) = health_sums-total args.reserves (pos 0, pos 0) k in
        (result_at now args total, rw e)

    -- The health factor does not depend on the order of the user's reserves: where it is returned
    -- for one order it is the same for a permutation.
    pub calculate_health_factor-Perm :
        (now vai_repay : ℤ) (usr : String) (l l' : Dict CompReserve) (hf : HealthFactor F)
        → Permᴰ l l'
        → calculate_health_factor now
            (record { usr = usr; reserves = l; vai_repay = vai_repay })
            ctk
            comet
          ≡ ok (record { usr = usr; health_factor = hf; reserves = l })
        → calculate_health_factor now
            (record { usr = usr; reserves = l'; vai_repay = vai_repay })
            ctk
            comet
          ≡ ok (record { usr = usr; health_factor = hf; reserves = l' })
    unfolding calculate_health_factor
    calculate_health_factor-Perm now vai_repay usr l l' hf d h =
        let (total, e, last) = >>=-eq-ok (health_sums ctk comet (pos 0, pos 0) l) _ h in
        rw (health_sums-Perm ctk comet (pos 0, pos 0) total d e) (
          ap (λ x. ok (record { usr = usr; health_factor = x; reserves = l' }))
            (ap HealthResult.health_factor (ok_injective _ _ last)))

    short_of :
        ⦃laws : IsFloats F⦄
        → (value : F) (sums : ℤ × ℤ) (borrow : ℤ) → value ≡ factor_of sums.0 borrow
        → pos 1 ≤ℤ borrow
        → Floats.lt fl value (Floats.of_int fl (pos 1)) ≡ true
        → sums.0 +ℤ pos 1 ≤ℤ borrow
    unfolding factor_of
    short_of ⦃laws⦄ value sums borrow e h low =
        let some_debt : leb_ℤ borrow (pos 0) ≡ false = ground arith in
        laws.div_int-lt_one sums.0 borrow h (rw (e, some_debt) at low)

    -- Where calculate_health_factor returns a factor below 1 on a debt of at least 1, the sum of
    -- the collateral is below the debt volume, which is the sum of the debts with the VAI debt.
    pub shortfall :
        ⦃laws : IsFloats F⦄
        → (now : ℤ) (args : UserArgs) (result : HealthResult F)
        → calculate_health_factor now args ctk comet ≡ ok result
        → pos 1 ≤ℤ result.health_factor.debt_volume
        → Floats.lt fl result.health_factor.value (Floats.of_int fl (pos 1)) ≡ true
        → (sums : ℤ × ℤ) × (health_sums ctk comet (pos 0, pos 0) args.reserves ≡ ok sums)
          × (result.health_factor.debt_volume ≡ sums.1 +ℤ args.vai_repay)
          × (sums.0 +ℤ pos 1 ≤ℤ sums.1 +ℤ args.vai_repay)
    unfolding calculate_health_factor
    shortfall now args result h pos_debt low =
        let (sums, e, last) = >>=-eq-ok (health_sums ctk comet (pos 0, pos 0) args.reserves) _ h in
        let same = ok_injective _ _ last in
        (
          sums,
          e,
          sym (ap (λ x. x.health_factor.debt_volume) same),
          short_of _ sums (sums.1 +ℤ args.vai_repay) refl (rw (← same) at pos_debt)
              (rw (← same) at low),
        )
