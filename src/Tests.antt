-- ===== src/Tests.antt =====
-- The theorems on users, health, prices and blocks at concrete inputs.
pub mod Trading
pub mod Main
pub mod HighProfit
pub mod Cached
pub mod Reports
pub mod Windows
pub mod Setup
pub mod Start
use mathlib.Core.List.{Permᴰ}
use mathlib.Core.List.{Memᴰ}
use compound_liquidation.Prelude.{
  eq_iff, err, index_error, ℕ, ◌+◌, ◌-◌, ◌*◌, ◌/◌, ◌%◌, ◌^◌, ◌<◌, ◌≤◌, ◌≡◌, ◌≢◌, ◌⊎◌, refl, String,
  some, Option, List, [], ◌∷◌, Dict, ok, All, lookup, get_elem?, if◌then◌else◌, arith, str_eq,
}
use mathlib.Core.Bool.{false≢true}
use compound_liquidation.Prelude.Int.{
  ℤ, pos, negsuc, ◌+ℤ◌, ◌-ℤ◌, ◌≤ℤ◌, ltb_ℤ, floor_div, fdiv, ◌*ℤ◌,
}
use compound_liquidation.Prelude.Text.{str_lt, from_hex, slice_from, lower, str}
use compound_liquidation.Comet
use compound_liquidation.Users.Queries.{trim_reserves}
use compound_liquidation.Health.Sums.{health_sums-trim_reserves}
use compound_liquidation.Chain.{Eth, LogReceipt, AbiValue, parse_event}
use compound_liquidation.Price.{CtokenPrice, new_ctoken_price, update, revert}
use compound_liquidation.Price.Pending.{updates, confirmed_price, revert-updates}
use compound_liquidation.Tokens.{new_reserve}
use compound_liquidation.Block.{
  init_block_infos, get_current_timestamp, get_blocknum_by_timestamp, get_blocknum-get_timestamp,
}
use compound_liquidation.Users.{current_price}
use compound_liquidation.Users.Handlers.{on_transfer}
use compound_liquidation.Users.Sums.{total_held}
use compound_liquidation.Users.Conservation.{total_held-on_transfer}
use compound_liquidation.Users.Queries.{sampling}
use compound_liquidation.Users.Sampling.{sampling-covers}
use compound_liquidation.Health.{health_sums, calculate_health_factor, UserArgs, HealthResult}
use compound_liquidation.Health.Shortfall.{
  AllKnown, shortfall, calculate_health_factor-total, calculate_health_factor-Perm,
}
use compound_liquidation.Liquidation.{
  Debt, LiqPair, collaterals_of, mul_scalar_truncate, mul_scalar_truncate_reverse, adjusted,
  seize_ratio, pair_of,
}
use compound_liquidation.Liquidation.Pairs.{MarketNonneg, IsWithin, collaterals_of-IsWithin}
use compound_liquidation.Router.{
  Pool, Routs, gen_pool_key, swap_simulation, find_routs, candidates, add_liq_pool, get_liq_pool,
}
use compound_liquidation.Router.Best.{IsBest, find_routs-IsBest}
use compound_liquidation.Router.Keys.{gen_pool_key_comm, get_liq_pool-add_liq_pool}
use compound_liquidation.Router.Swap.{swap_simulation-product}
use compound_liquidation.Router.{Hop}
use compound_liquidation.Bots.{gen, IsStep, count-gen}
use compound_liquidation.Signals.{Signals, TxAttributes, tx_filter_and_parsing}
use compound_liquidation.Signals.Epochs.{epoch, tx_filter_and_parsing-le}
use compound_liquidation.Liquidation.Guards.{
  free_user_liquidated, set_user_liquidated, is_user_liquidated, is_user_liquidated-free,
}
use Prim.Native.String.{count}
use compound_liquidation.Tokens.{CtokenInfos, new_ctoken_configs}
use compound_liquidation.Liquidation.Targets.{profit_simulation}
use compound_liquidation.Liquidation.Profit.{HasProfit, profit_simulation-HasProfit}
use compound_liquidation.Sync.{Synced, query_events_loop}
use compound_liquidation.Samples.{
  Milli, milli_floats, milli_laws, market, eth_sample, log_sample, one, infos_sample, ctk_sample,
  comet_sample, reserve_sample, states_sample, pool_sample,
}

total_held-on_transfer_example :
    total_held market
      (on_transfer eth_sample log_sample market
        (AbiValue.uint (pos 30) ∷ [])
        states_sample).1.users_states
    ≡ total_held market states_sample.users_states
total_held-on_transfer_example =
    total_held-on_transfer market eth_sample log_sample market (AbiValue.uint (pos 30) ∷ [])
      states_sample

abbrev args_sample : UserArgs
args_sample = record {
  usr = "0xalice";
  reserves = (market, reserve_sample) ∷ [];
  vai_repay = pos 0;
}

abbrev health_sample : HealthResult Milli
health_sample = record {
  usr = "0xalice";
  health_factor = record { value = pos 625; debt_volume = pos (80 * 10 ^ 18); last_update = pos 7 };
  reserves = (market, reserve_sample) ∷ [];
}

computed : calculate_health_factor (pos 7) args_sample ctk_sample comet_sample ≡ ok health_sample
unfolding calculate_health_factor milli_floats current_price floor_div ◌+ℤ◌ fdiv ◌*ℤ◌
computed = refl

shortfall_example :
    (sums : ℤ × ℤ) × (health_sums ctk_sample comet_sample (pos 0, pos 0) args_sample.reserves
      ≡ ok sums)
    × (health_sample.health_factor.debt_volume ≡ sums.1 +ℤ pos 0)
    × (sums.0 +ℤ pos 1 ≤ℤ sums.1 +ℤ pos 0)
unfolding milli_floats ◌*ℤ◌
shortfall_example =
    shortfall ctk_sample comet_sample (pos 7) args_sample health_sample computed (omega arith) refl

known : AllKnown ctk_sample comet_sample args_sample.reserves
known = ((infos_sample, _, _, refl, refl, refl), tt)

calculate_health_factor-total_example :
    (result : HealthResult Milli) × (calculate_health_factor
        (pos 7)
        args_sample
        ctk_sample
        comet_sample
      ≡ ok result)
calculate_health_factor-total_example =
    calculate_health_factor-total ctk_sample comet_sample (pos 7) args_sample known

calculate_health_factor-Perm_example :
    calculate_health_factor
      (pos 7)
      (record {
        usr = "0xalice";
        reserves = (market, new_reserve) ∷ (market, reserve_sample) ∷ [];
        vai_repay = pos 0;
      })
      ctk_sample
      comet_sample
    ≡ ok (record health_sample { reserves = (market, new_reserve) ∷ (market, reserve_sample) ∷ [] })
unfolding calculate_health_factor milli_floats current_price floor_div ◌+ℤ◌ fdiv ◌*ℤ◌
calculate_health_factor-Perm_example =
    calculate_health_factor-Perm ctk_sample comet_sample (pos 7) (pos 0) "0xalice"
      ((market, reserve_sample) ∷ (market, new_reserve) ∷ [])
      ((market, new_reserve) ∷ (market, reserve_sample) ∷ []) health_sample.health_factor
      (Permᴰ.swap refl refl) refl

get_blocknum-get_timestamp_example :
    get_blocknum_by_timestamp
      (init_block_infos (pos 100) (pos 5000) (pos 1))
      (get_current_timestamp (init_block_infos (pos 100) (pos 5000) (pos 1)) (pos 107))
    ≡ pos 107
get_blocknum-get_timestamp_example =
    get_blocknum-get_timestamp (init_block_infos (pos 100) (pos 5000) (pos 1)) (pos 107)

abbrev price_sample : CtokenPrice
price_sample = new_ctoken_price (pos 40) (pos 1)

revert-updates_example :
    (CtokenPrice.price_current
        (revert (pos 100) (update (pos 50) (pos 20) (updates ((pos 45, pos 10) ∷ []) price_sample)))
      ≡ (if ltb_ℤ (pos 20 +ℤ pos 15) (pos 100) then confirmed_price price_sample else pos 50))
    × (CtokenPrice.is_comfired (
          revert
            (pos 100)
            (update (pos 50) (pos 20) (updates ((pos 45, pos 10) ∷ []) price_sample)))
        ≡ ltb_ℤ (pos 20 +ℤ pos 15) (pos 100))
revert-updates_example =
    revert-updates ((pos 45, pos 10) ∷ []) (pos 50) (pos 20) (pos 100) price_sample

abbrev five : List ℕ
five = 10 ∷ 11 ∷ 12 ∷ 13 ∷ 14 ∷ []

sampling-covers_example :
    (3 / 2 < 3)
    × (sample : List ℕ) × (sampling five (3 / 2) 3 ≡ ok sample)
    × (get_elem? sample (3 % 2) ≡ get_elem? five 3)
sampling-covers_example = sampling-covers five 3 3 (omega arith) (omega arith)

health_sums-trim_reserves_example :
    health_sums ctk_sample comet_sample
      (pos 0, pos 0)
      (trim_reserves ((market, new_reserve) ∷ (market, reserve_sample) ∷ []))
    ≡ ok (pos (50 * 10 ^ 18), pos (80 * 10 ^ 18))
unfolding health_sums current_price floor_div ◌+ℤ◌ fdiv ◌*ℤ◌
health_sums-trim_reserves_example =
    health_sums-trim_reserves ctk_sample comet_sample
      ((market, new_reserve) ∷ (market, reserve_sample) ∷ []) (pos 0, pos 0)
      (pos (50 * 10 ^ 18), pos (80 * 10 ^ 18)) refl
