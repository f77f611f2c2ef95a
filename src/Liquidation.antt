-- ===== src/Liquidation.antt =====
-- Which debts to repay for which collateral: liquidation_simulation and profit_simulation of compound.py.
pub mod Pairs
pub mod Bounds
pub mod Targets
pub mod Guards
pub mod Start
pub mod Profit
use compound_liquidation.Prelude.{
  ℕ, String, Bool, not, ◌&&◌, ◌||◌, none, some, Option, List, [], ◌∷◌, Dict, lookup, insert, Result,
  ok, err, at_key, ◌>>=◌, str_eq, if◌then◌else◌,
}
use compound_liquidation.Prelude.Int.{
  ℤ, pos, ◌+ℤ◌, ◌-ℤ◌, ◌*ℤ◌, ltb_ℤ, leb_ℤ, eqb_ℤ, floor_div, fdiv,
}
use compound_liquidation.Prelude.Sort.{sort_by}
use compound_liquidation.Prelude.Text.{str_lt}
use compound_liquidation.Prelude.Float.{Floats}
use compound_liquidation.Config.{exp_scale, desired_profit_scale, treasury_percent}
use compound_liquidation.Tokens.{CompReserve, CtokenInfos, CtokenConfigs}
use compound_liquidation.Comet.{CometConfigs}
use compound_liquidation.Users.{current_price}
use compound_liquidation.Router.{Hop, Pool, Swap, Routs, gen_new_routs, find_routs}

unfoldable pub mul_scalar_truncate : (ratio repay_amount : ℤ) → ℤ
mul_scalar_truncate ratio repay_amount = fdiv (ratio *ℤ repay_amount) exp_scale

unfoldable pub mul_scalar_truncate_reverse : (ratio seize_amount : ℤ) → Result ℤ
mul_scalar_truncate_reverse ratio seize_amount = floor_div (seize_amount *ℤ pos exp_scale) ratio

pub record LiqPair : Type 0 where
  pub profit : ℤ
  pub col_ctoken : String
  pub debt_ctoken : String
  pub seize_tokens : ℤ
  pub repay_amount : ℤ

-- `(debt_normalize, ctoken_addr, debt_max)`
pub record Debt : Type 0 where
  pub normalized : ℤ
  pub ctoken : String
  pub max : ℤ

-- the order of the tuples
unfoldable pub debt_lt : Debt → Debt → Bool
debt_lt a b =
    if eqb_ℤ a.normalized b.normalized
    then (if str_eq a.ctoken b.ctoken then ltb_ℤ a.max b.max else str_lt a.ctoken b.ctoken)
    else ltb_ℤ a.normalized b.normalized

-- the first loop: the debts, with the most that one liquidation repays of each
unfoldable pub debts_of : Dict CtokenInfos → CometConfigs → Dict CompReserve → Result (List Debt)
unfolding mul_scalar_truncate
debts_of ctk comet [] = ok []
debts_of ctk comet ((ctoken_addr, r) ∷ rest) = do
  infos ← at_key ctoken_addr ctk
  let further = debts_of ctk comet rest
  (if ltb_ℤ (pos 0) r.debt_amount
      then (do
        debt_balance ← floor_div (r.debt_amount *ℤ infos.risks.borrow_index) r.debt_interest
        let debt_max = mul_scalar_truncate comet.closs_factor debt_balance
        debt_price ← current_price ctk ctoken_addr
        debts ← further
        ok (
            record {
              normalized = fdiv (debt_price *ℤ debt_max) exp_scale;
              ctoken = ctoken_addr;
              max = debt_max;
            }
            ∷ debts))
      else further)

-- what a repayment seizes: the tokens, and the repayment again where the collateral is too small
unfoldable pub adjusted : (collateral_balance ratio repay : ℤ) → Result (ℤ × ℤ)
unfolding mul_scalar_truncate mul_scalar_truncate_reverse
adjusted collateral_balance ratio repay =
    let seize_tokens = mul_scalar_truncate ratio repay in
    if ltb_ℤ collateral_balance seize_tokens
    then (do
      again ← mul_scalar_truncate_reverse ratio collateral_balance
      ok (collateral_balance, again))
    else ok (seize_tokens, repay)

-- tokens seized for each token repaid
unfoldable pub seize_ratio : (liq_incentive debt_price price exchange_rate : ℤ) → Result ℤ
seize_ratio liq_incentive debt_price price exchange_rate =
    floor_div (fdiv (liq_incentive *ℤ debt_price) exp_scale *ℤ pos exp_scale)
      (fdiv (price *ℤ exchange_rate) exp_scale)

-- the body of the inner loop
unfoldable pub pair_of :
    (liq_incentive debt_price price exchange_rate collateral_balance repay : ℤ)
    → String
    → String
    → Result LiqPair
unfolding seize_ratio adjusted
pair_of liq_incentive debt_price price exchange_rate collateral_balance repay col_ctoken
      debt_ctoken =
    do
      ratio ← seize_ratio liq_incentive debt_price price exchange_rate
      amounts ← adjusted collateral_balance ratio repay
      fee ← floor_div (amounts.0 *ℤ pos treasury_percent) liq_incentive
      let seize_tokens = amounts.0 -ℤ fee
      ok (record {
        profit =
            fdiv
              (fdiv (seize_tokens *ℤ exchange_rate) exp_scale *ℤ price -ℤ amounts.1 *ℤ debt_price)
              exp_scale;
        col_ctoken = col_ctoken;
        debt_ctoken = debt_ctoken;
        seize_tokens = seize_tokens;
        repay_amount = amounts.1;
      })

-- the inner loop, over the collaterals
unfoldable pub collaterals_of :
    Dict CtokenInfos → CometConfigs → ℤ → Debt → Dict CompReserve → Result (List LiqPair)
unfolding pair_of
collaterals_of ctk comet debt_price debt [] = ok []
collaterals_of ctk comet debt_price debt ((ctoken_addr, r) ∷ rest) =
    let further = collaterals_of ctk comet debt_price debt rest in
    if ltb_ℤ (pos 0) r.col_amount
    then (do
      price ← current_price ctk ctoken_addr
      infos ← at_key ctoken_addr ctk
      pair ←
          pair_of comet.liq_incentive debt_price price infos.risks.exchange_rate r.col_amount
            debt.max ctoken_addr debt.ctoken
      pairs ← further
      ok (pair ∷ pairs))
    else further

-- the order of `sorted(..., key=lambda x: x.profit, reverse=True)`
unfoldable pub more_profit : LiqPair → LiqPair → Bool
more_profit a b = ltb_ℤ b.profit a.profit

unfoldable pub add_pairs : String → List LiqPair → Dict (List LiqPair) → Dict (List LiqPair)
unfolding more_profit
add_pairs debt_ctoken [] pairs = pairs
add_pairs debt_ctoken (c ∷ cs) pairs = insert debt_ctoken (sort_by more_profit (c ∷ cs)) pairs

module _ (F : Type 0) ⦃fl : Floats F⦄ where
  -- the loop over the sorted debts: those of less than 0.8 of the largest are passed over
  unfoldable pub pairs_from :
      Dict CtokenInfos
      → CometConfigs
      → Dict CompReserve
      → ℤ
      → List Debt
      → Dict (List LiqPair)
      → Result (Dict (List LiqPair))
  unfolding collaterals_of add_pairs
  pairs_from ctk comet reserves largest [] pairs = ok pairs
  pairs_from ctk comet reserves largest (debt ∷ rest) pairs = do
    debt_price ← current_price ctk debt.ctoken
    pairs' ←
        (if Floats.int_lt fl debt.normalized
            (Floats.mul fl (Floats.of_int fl largest) (Floats.decimal fl (pos 8) 1))
          then ok pairs
          else (do
            collaterals ← collaterals_of ctk comet debt_price debt reserves
            ok (add_pairs debt.ctoken collaterals pairs)))
    pairs_from ctk comet reserves largest rest pairs'

  unfoldable pub with_debts :
      Dict CtokenInfos → CometConfigs → Dict CompReserve → List Debt → Result (Dict (List LiqPair))
  unfolding pairs_from
  with_debts ctk comet reserves [] = ok []
  with_debts ctk comet reserves (debt ∷ debts) =
      pairs_from ctk comet reserves debt.normalized (debt ∷ debts) []

  unfoldable pub liquidation_simulation :
      Dict CompReserve → Dict CtokenInfos → CometConfigs → Result (Dict (List LiqPair))
  unfolding debts_of debt_lt with_debts
  liquidation_simulation reserves ctk comet = do
    debts ← debts_of ctk comet reserves
    with_debts ctk comet reserves (sort_by (λ a b. debt_lt b a) debts)
