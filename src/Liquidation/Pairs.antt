-- ===== src/Liquidation/Pairs.antt =====
-- The pairs of liquidation_simulation: what each asks of the user's reserves, and their order.
use mathlib.Core.List.{Memᴰ}
use compound_liquidation.Prelude.{
  ◌≡◌, ap, String, ok, ok_injective, >>=-eq-ok, arith, Bool-cases, inl, inr, List, [], ◌∷◌, Dict,
  at_key, All, All-map,
}
use compound_liquidation.Prelude.Int.{ℤ, pos, ◌≤ℤ◌, ltb_ℤ}
use compound_liquidation.Tokens.{CompReserve, CtokenInfos}
use compound_liquidation.Comet.{CometConfigs}
use compound_liquidation.Users.{current_price}
use compound_liquidation.Liquidation.{Debt, LiqPair, pair_of, collaterals_of}
use compound_liquidation.Liquidation.Bounds.{AreNonneg, pair_of-bounds}

-- no price, rate or parameter of the markets is negative
pub record MarketNonneg (ctk : Dict CtokenInfos) (comet : CometConfigs) : Type 0 where
  pub incentive_nonneg : pos 0 ≤ℤ comet.liq_incentive
  pub prices_nonneg : (token : String) (p : ℤ) → current_price ctk token ≡ ok p → pos 0 ≤ℤ p
  pub rates_nonneg :
      (token : String) (infos : CtokenInfos)
      → at_key token ctk ≡ ok infos
      → pos 0 ≤ℤ infos.risks.exchange_rate

-- The pair repays a part of the debt and seizes a part of a collateral of the user.
abbrev pub IsWithin : Debt → Dict CompReserve → LiqPair → Type 0
IsWithin debt reserves pair =
    (pair.debt_ctoken ≡ debt.ctoken)
    × (r : CompReserve) × Memᴰ (pair.col_ctoken, r) reserves
    × (pair.repay_amount ≤ℤ debt.max)
    × (pair.seize_tokens ≤ℤ r.col_amount)

module _ (ctk : Dict CtokenInfos) (comet : CometConfigs) (market : MarketNonneg ctk comet) where
  -- Where no price, rate or parameter of the markets is negative, every pair that the inner loop
  -- of liquidation_simulation lists for a debt names that debt, repays at most the debt's maximum,
  -- and seizes at most the balance of a reserve of the user that it names.
  pub collaterals_of-IsWithin :
      (debt_price : ℤ) (debt : Debt) (reserves : Dict CompReserve) (pairs : List LiqPair)
      → pos 0 ≤ℤ debt_price
      → pos 0 ≤ℤ debt.max
      → collaterals_of ctk comet debt_price debt reserves ≡ ok pairs
      → All (IsWithin debt reserves) pairs
  unfolding collaterals_of
  collaterals_of-IsWithin debt_price debt [] pairs hp hm h = rw (← ok_injective _ _ h) tt
  collaterals_of-IsWithin debt_price debt ((token, r) ∷ rest) pairs hp hm h =
      elim (Bool-cases (ltb_ℤ (pos 0) r.col_amount)) [
        | inl e ↦
            let (price, hp', h1) = >>=-eq-ok (current_price ctk token) _ (rw e at h) in
            let (infos, hi, h2) = >>=-eq-ok (at_key token ctk) _ h1 in
            let rate = infos.risks.exchange_rate in
            let pair' =
              pair_of comet.liq_incentive debt_price price rate r.col_amount debt.max token
                debt.ctoken in
            let (pair, hpair, h3) = >>=-eq-ok pair' _ h2 in
            let (others, ho, last) =
              >>=-eq-ok (collaterals_of ctk comet debt_price debt rest) _ h3 in
            let nn : AreNonneg comet.liq_incentive debt_price price rate r.col_amount debt.max =
              record {
                incentive_nonneg = market.incentive_nonneg;
                debt_price_nonneg = hp;
                price_nonneg = market.prices_nonneg token price hp';
                rate_nonneg = market.rates_nonneg token infos hi;
                balance_nonneg = ground arith;
                repay_nonneg = hm;
              } in
            let (ratio, _, repaid, _, seized, col, name) =
              pair_of-bounds _ _ price rate _ _ token debt.ctoken pair nn hpair in
            rw (← ok_injective _ _ last) (
              (name, r, Memᴰ.head (ap (λ t. (t, r)) col), repaid, seized),
              All-map others (λ p (same, r', m, b, c). (same, r', Memᴰ.tail m, b, c))
                  (collaterals_of-IsWithin debt_price debt rest others hp hm ho),
            )
        | inr e ↦
            All-map pairs (λ p (same, r', m, b, c). (same, r', Memᴰ.tail m, b, c))
              (collaterals_of-IsWithin debt_price debt rest pairs hp hm (rw e at h))
      ]
