-- ===== src/Tests/Trading.antt =====
-- The theorems on routes, liquidations, call data and signals at concrete inputs.
use mathlib.Core.List.{Memᴰ}
use compound_liquidation.Prelude.{
  eq_iff, err, index_error, ℕ, ◌+◌, ◌-◌, ◌*◌, ◌^◌, ◌<◌, ◌≤◌, ◌≡◌, ◌≢◌, ◌⊎◌, refl, String, some,
  Option, [], ◌∷◌, Dict, ok, All, if◌then◌else◌, arith,
}
use mathlib.Core.Bool.{false≢true}
use compound_liquidation.Prelude.Int.{ℤ, pos, negsuc, ◌+ℤ◌, ◌-ℤ◌, ◌≤ℤ◌, floor_div, fdiv, ◌*ℤ◌}
use compound_liquidation.Prelude.Text.{str_lt, slice_from, lower, str}
use compound_liquidation.Users.{current_price}
use compound_liquidation.Liquidation.{
  Debt, LiqPair, collaterals_of, mul_scalar_truncate, mul_scalar_truncate_reverse, adjusted,
  seize_ratio, pair_of,
}
use compound_liquidation.Liquidation.Pairs.{MarketNonneg, IsWithin, collaterals_of-IsWithin}
use compound_liquidation.Router.{
  Pool, Routs, gen_pool_key, swap_simulation, find_routs, candidates, add_liq_pool, get_liq_pool,
}
use compound_liquidation.Router.Best.{IsBest, find_routs-IsBest}
use compound_liquidation.Router.Keys.{gen_pool_key_comm, get_liq_pool-add_liq_pool}
use compound_liquidation.Router.Swap.{swap_simulation-product}
use compound_liquidation.Router.{Hop}
use compound_liquidation.Bots.{gen, IsStep, count-gen}
use compound_liquidation.Signals.{Signals, TxAttributes, tx_filter_and_parsing}
use compound_liquidation.Signals.Epochs.{epoch, tx_filter_and_parsing-le}
use compound_liquidation.Liquidation.Guards.{
  free_user_liquidated, set_user_liquidated, is_user_liquidated, is_user_liquidated-free,
}
use Prim.Native.String.{count}
use compound_liquidation.Tokens.{CtokenInfos, new_ctoken_configs}
use compound_liquidation.Liquidation.Targets.{profit_simulation}
use compound_liquidation.Liquidation.Profit.{HasProfit, profit_simulation-HasProfit}
use compound_liquidation.Samples.{
  Milli, milli_floats, milli_laws, market, one, infos_sample, ctk_sample, comet_sample,
  reserve_sample, pool_sample,
}

prices_sample : (token : String) (p : ℤ) → current_price ctk_sample token ≡ ok p → pos 0 ≤ℤ p
unfolding current_price
prices_sample token p h = ground arith

market_nonneg : MarketNonneg ctk_sample comet_sample
market_nonneg = record {
  incentive_nonneg = omega arith;
  prices_nonneg = prices_sample;
  rates_nonneg = λ token infos h. ground arith;
}

abbrev debt_sample : Debt
debt_sample = record { normalized = pos (40 * 10 ^ 18); ctoken = market; max = pos (40 * 10 ^ 18) }

abbrev pair_sample : LiqPair
pair_sample = record {
  profit = pos (2 * 10 ^ 18);
  col_ctoken = market;
  debt_ctoken = market;
  seize_tokens = pos (42 * 10 ^ 18);
  repay_amount = pos (40 * 10 ^ 18);
}

collaterals_of-IsWithin_example :
    All (IsWithin debt_sample ((market, reserve_sample) ∷ [])) (pair_sample ∷ [])
unfolding collaterals_of current_price floor_div ◌+ℤ◌ fdiv ◌*ℤ◌ ◌-ℤ◌ mul_scalar_truncate adjusted
    mul_scalar_truncate_reverse seize_ratio pair_of
collaterals_of-IsWithin_example =
    collaterals_of-IsWithin ctk_sample comet_sample market_nonneg one debt_sample
      ((market, reserve_sample) ∷ []) (pair_sample ∷ []) (omega arith) (omega arith) refl

swap_simulation-product_example :
    (1000 < 10 * 20) × (swap_simulation pool_sample (pos 10) 0 ≡ ok (negsuc 0))
    ⊎ (10 * 20 ≤ 1000)
      × (n : ℕ) × (swap_simulation pool_sample (pos 10) 0 ≡ ok (pos n))
      × (1000 * (2000 * 10000) ≤ (1000 - 10) * (2000 * 10000 + n * (10000 - 25)))
swap_simulation-product_example =
    swap_simulation-product pool_sample 0 1000 2000 10 refl refl (omega arith) (omega arith)

abbrev token_a : String
token_a = "0xa"

abbrev token_b : String
token_b = "0xb"

distinct : token_a ≢ token_b
distinct h = false≢true ((eq_iff "0xa" "0xb").1 h)

gen_pool_key_comm_example :
    ((gen_pool_key "0xb" "0xa").0 ≡ (gen_pool_key "0xa" "0xb").0)
    × ((gen_pool_key "0xb" "0xa").1 + (gen_pool_key "0xa" "0xb").1 ≡ 1)
gen_pool_key_comm_example = gen_pool_key_comm "0xa" "0xb" distinct

abbrev query_sample : String × String → Option Pool
query_sample pair = some (record pool_sample { pair = pair })

get_liq_pool-add_liq_pool_example :
    (get_liq_pool ("0xa", "0xb") (add_liq_pool query_sample ("0xa", "0xb") [])
      ≡ (if str_lt "0xa" "0xb" then query_sample ("0xa", "0xb") else query_sample ("0xb", "0xa")))
    × (get_liq_pool ("0xb", "0xa") (add_liq_pool query_sample ("0xa", "0xb") [])
        ≡ (if str_lt "0xa" "0xb" then query_sample ("0xa", "0xb") else query_sample ("0xb", "0xa")))
get_liq_pool-add_liq_pool_example = get_liq_pool-add_liq_pool query_sample "0xa" "0xb" [] distinct

abbrev pools_sample : Dict (Option Pool)
pools_sample = add_liq_pool query_sample ("0xa", "0xb") []

abbrev routs_sample : Routs
routs_sample = record { token_in = "0xa"; token_out = "0xb"; rout_tokens = "0xc" ∷ []; paths = [] }

find_routs-IsBest_example :
    All
      (IsBest (find_routs swap_simulation pools_sample routs_sample (pos 10)))
      (candidates swap_simulation pools_sample routs_sample (pos 10))
    × ((find_routs swap_simulation pools_sample routs_sample (pos 10) ≡ (negsuc 0, []))
        ⊎ Memᴰ
            (find_routs swap_simulation pools_sample routs_sample (pos 10))
            (candidates swap_simulation pools_sample routs_sample (pos 10)))
find_routs-IsBest_example = find_routs-IsBest swap_simulation pools_sample routs_sample (pos 10)

abbrev hop_sample : Hop
hop_sample = record {
  pool_addr = "0xPool";
  fee = 25;
  is_zero_for_one = 1;
  token0 = "0xa";
  token1 = "0xb";
  amount_out = pos 10;
}

hop_fits : IsStep hop_sample
unfolding lower slice_from str
hop_fits = record {
  pool_fits = omega arith;
  fee_fits = omega arith;
  flag_fits = omega arith;
  token0_fits = omega arith;
  token1_fits = omega arith;
  amount = 10;
  amount_is = refl;
  amount_fits = omega arith;
}

count-gen_example : count (gen "0xAlice" "0xDebt" "0xCol" (hop_sample ∷ [])) ≡ 10 + 64 * (5 + 6 * 1)
unfolding lower slice_from
count-gen_example =
    count-gen "0xAlice" "0xDebt" "0xCol" (hop_sample ∷ []) (omega arith) (omega arith) (omega arith)
      (hop_fits, tt) (omega arith)

is_user_liquidated-free_example :
    let freed =
      free_user_liquidated "0xalice" market
        (set_user_liquidated "7" "0xalice" market (pos 40) []) in
    (freed.0 ≡ ok tt)
    × ((is_user_liquidated Milli "0xalice" market (pos 50) freed.1).0 ≡ err index_error)
is_user_liquidated-free_example =
    is_user_liquidated-free Milli "7" "0xalice" market (pos 40) (pos 50) []

abbrev tx_sample : TxAttributes
tx_sample = record {
  to = "0xaggr";
  input = "0xc9807539";
  gas_price = some "0x5";
  max_fee_per_gas = "";
}

abbrev signals_sample : Signals
signals_sample = record {
  signal_token_map = [];
  token_signal_map = [];
  signals_event_filter_light = [];
  signals_epoch = ("0xaggr", 4) ∷ [];
}

tx_filter_and_parsing-le_example :
    4 ≤ epoch "0xaggr" (tx_filter_and_parsing tx_sample (pos 5000) signals_sample).1
tx_filter_and_parsing-le_example =
    tx_filter_and_parsing-le tx_sample (pos 5000) "0xaggr" signals_sample

abbrev configured : String → CtokenInfos
configured token = record infos_sample {
  configs = some (new_ctoken_configs market "0xreporter" token 18 "" (pos 18) 1 1);
}

abbrev two_markets : Dict CtokenInfos
two_markets = ("0xcol", configured "0xa") ∷ ("0xdebt", configured "0xb") ∷ []

abbrev deep_pools : Dict (Option Pool)
deep_pools =
    add_liq_pool
      (λ pair.
        some (record pool_sample { pair = pair; liquidity = (pos (10 ^ 24), pos (10 ^ 24)) }))
      ("0xa", "0xb") []

abbrev rich_pair : LiqPair
rich_pair = record {
  profit = pos (20 * 10 ^ 18);
  col_ctoken = "0xcol";
  debt_ctoken = "0xdebt";
  seize_tokens = pos (100 * 10 ^ 18);
  repay_amount = pos (40 * 10 ^ 18);
}

profit_simulation-HasProfit_example :
    HasProfit two_markets swap_simulation deep_pools
      (profit_simulation two_markets swap_simulation deep_pools
        (("0xdebt", rich_pair ∷ []) ∷ [])
        ("0xc" ∷ [])).0
profit_simulation-HasProfit_example =
    profit_simulation-HasProfit two_markets swap_simulation deep_pools
      (("0xdebt", rich_pair ∷ []) ∷ []) ("0xc" ∷ [])
