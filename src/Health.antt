-- ===== src/Health.antt =====
-- The health of users: calculate_health_factor and the functions about its results in compound.py.
-- The time is a parameter, `now`.
pub mod Sums
pub mod Shortfall
pub mod Trimming
use compound_liquidation.Prelude.{
  String, Bool, not, ◌&&◌, none, some, List, [], ◌∷◌, Dict, lookup, adjust, Result, ok, err, at_key,
  key_error, ◌>>=◌, if◌then◌else◌,
}
use compound_liquidation.Prelude.Int.{ℤ, pos, ◌+ℤ◌, ◌*ℤ◌, ltb_ℤ, eqb_ℤ, leb_ℤ, floor_div, fdiv}
use compound_liquidation.Prelude.Float.{Floats}
use compound_liquidation.Config.{exp_scale}
use compound_liquidation.Tokens.{CompReserve, CtokenInfos, CtokenRiskParams}
use compound_liquidation.Comet.{CometConfigs}
use compound_liquidation.Users.{HealthFactor, UserStates, States, current_price}

-- what a collateral counts for, in dollars: its factor, its exchange rate, its price, its balance
unfoldable pub collateral_value : (factor exchange_rate price balance : ℤ) → ℤ
collateral_value factor exchange_rate price balance =
    fdiv (fdiv (fdiv (factor *ℤ exchange_rate) exp_scale *ℤ price) exp_scale *ℤ balance) exp_scale

-- what a debt counts for, with the interest since its last update
unfoldable pub debt_value : (debt_balance borrow_index interest_index price : ℤ) → Result ℤ
debt_value debt_balance borrow_index interest_index price = do
  balance ← floor_div (debt_balance *ℤ borrow_index) interest_index
  ok (fdiv (balance *ℤ price) exp_scale)

-- what one reserve adds to the two sums, at the values of its market
unfoldable pub shares : CompReserve → (price factor : ℤ) → CtokenRiskParams → Result (ℤ × ℤ)
unfolding collateral_value debt_value
shares r price factor risks =
    let collateral =
      if (not (eqb_ℤ r.is_col_liq (pos 0)) && ltb_ℤ (pos 0) factor) && ltb_ℤ (pos 0) r.col_amount
      then collateral_value factor risks.exchange_rate price r.col_amount
      else pos 0 in
    if ltb_ℤ (pos 0) r.debt_amount && not (eqb_ℤ r.debt_interest (pos 0))
    then (do
      debt ← debt_value r.debt_amount risks.borrow_index r.debt_interest price
      ok (collateral, debt))
    else ok (collateral, pos 0)

unfoldable pub contribution :
    Dict CtokenInfos → CometConfigs → String → CompReserve → Result (ℤ × ℤ)
unfolding shares
contribution ctk comet token_addr r = do
  price ← current_price ctk token_addr
  collateral_factor ← at_key token_addr comet.ctokens_collateral_factor
  infos ← at_key token_addr ctk
  shares r price collateral_factor infos.risks

-- the loop over the reserves, from the sums so far
unfoldable pub health_sums :
    Dict CtokenInfos → CometConfigs → (sums : ℤ × ℤ) → Dict CompReserve → Result (ℤ × ℤ)
unfolding contribution
health_sums ctk comet sums [] = ok sums
health_sums ctk comet sums ((token_addr, r) ∷ rest) = do
  c ← contribution ctk comet token_addr r
  health_sums ctk comet (sums.0 +ℤ c.0, sums.1 +ℤ c.1) rest

-- `[usr, reserves, vai_repay]`
pub record UserArgs : Type 0 where
  pub usr : String
  pub reserves : Dict CompReserve
  pub vai_repay : ℤ

pub record HealthResult (F : Type 0) : Type 0 where
  pub usr : String
  pub health_factor : HealthFactor F
  pub reserves : Dict CompReserve

module _ {F : Type 0} ⦃fl : Floats F⦄ where
  -- the quotient, or 0 without a debt
  unfoldable pub factor_of : (sum_collateral sum_borrow : ℤ) → F
  factor_of sum_collateral sum_borrow =
      if leb_ℤ sum_borrow (pos 0)
      then Floats.of_int fl (pos 0)
      else Floats.div_int fl sum_collateral sum_borrow

  unfoldable pub calculate_health_factor :
      (now : ℤ) → UserArgs → Dict CtokenInfos → CometConfigs → Result (HealthResult F)
  unfolding health_sums factor_of
  calculate_health_factor now args ctk comet = do
    sums ← health_sums ctk comet (pos 0, pos 0) args.reserves
    let sum_borrow = sums.1 +ℤ args.vai_repay
    ok (record {
      usr = args.usr;
      health_factor = record {
        value = factor_of sums.0 sum_borrow;
        debt_volume = sum_borrow;
        last_update = now;
      };
      reserves = args.reserves;
    })

  unfoldable pub signal_calculate_health_factor :
      (now : ℤ) → List UserArgs → Dict CtokenInfos → CometConfigs → Result (List (HealthResult F))
  unfolding calculate_health_factor
  signal_calculate_health_factor now [] ctk comet = ok []
  signal_calculate_health_factor now (args ∷ rest) ctk comet = do
    result ← calculate_health_factor now args ctk comet
    results ← signal_calculate_health_factor now rest ctk comet
    ok (result ∷ results)

module _ {F : Type 0} where
  unfoldable pub gen_users_with_args : States F → List String → Result (List UserArgs)
  gen_users_with_args s [] = ok []
  gen_users_with_args s (usr ∷ users) = do
    u ← at_key usr s.users_states
    rest ← gen_users_with_args s users
    ok (
        record { usr = usr; reserves = UserStates.reserves u; vai_repay = UserStates.vai_repay u }
        ∷ rest)

  abbrev pub set_health : HealthFactor F → UserStates F → UserStates F
  set_health hf u = record u { health_factor = hf }

  -- a missing user raises, with the results before it written
  unfoldable pub write_health_factor :
      List (HealthResult F) → States F → Result (Unit {0}) × States F
  write_health_factor [] s = (ok tt, s)
  write_health_factor (result ∷ results) s =
      elim (lookup (HealthResult.usr result) s.users_states) [
        | none ↦ (err key_error, s)
        | some u ↦ write_health_factor results (record s {
          users_states = adjust result.usr (set_health result.health_factor) s.users_states;
        })
      ]
