-- ===== src/Tests/Start.antt =====
-- The theorem on the start-up of compound.py at a concrete input.
use compound_liquidation.Prelude.{
  ◌*◌, ◌^◌, Bool, true, false, none, [], ◌∷◌, Result, ok, err, key_error, refl, ◌≡◌,
}
use compound_liquidation.Prelude.Int.{pos, ◌-ℤ◌, ◌+ℤ◌, ◌*ℤ◌, fdiv, floor_div}
use compound_liquidation.Events.{vai_state, vai_update}
use compound_liquidation.Tokens.{
  CompReserve, reserves_load, to_list, tokens_load, new_ctoken_configs, risks_to_dict,
}
use compound_liquidation.Users.{user_states, current_price}
use compound_liquidation.Users.Cache.{CacheFiles, cache}
use compound_liquidation.Protocol.{
  coin_ctoken, Contracts, query_ctokens_configs, init_comet_configs,
}
use compound_liquidation.Signals.Setup.{Sources, init_signals}
use compound_liquidation.Bot.{Outside, World, health_of, users_trimming_wrap}
use compound_liquidation.Bot.Start.{Node}
use compound_liquidation.Bot.Start.Lists.{start}
use compound_liquidation.Bot.Start.Reached.{start-IsReached}
use compound_liquidation.Bot.Nearby.Idle.{IsReached}
use compound_liquidation.Bot.Series.{run}
use compound_liquidation.Prelude.Exec.{each}
use compound_liquidation.Users.Queries.{trim, users_filtering}
use compound_liquidation.Bot.Logs.{clear_plug_in}
use compound_liquidation.Users.Handlers
use compound_liquidation.Chain.{parse_event}
use compound_liquidation.Prelude.Sort.{sort_by}
use compound_liquidation.Health.{
  gen_users_with_args, signal_calculate_health_factor, write_health_factor,
}
use compound_liquidation.Signals.{signals, get_tokens_from_aggr}
use compound_liquidation.Prelude.Text.{lower}
use compound_liquidation.Send.{init_send_type}
use compound_liquidation.Router.Setup.{init_router_pools}
use compound_liquidation.Liquidation.Start.{signal_simulate_health_factor}
use compound_liquidation.Bot.Rounds.{numbered}
use compound_liquidation.Price.{new_ctoken_price}
use compound_liquidation.Health.Trimming.{users_trimming}
use compound_liquidation.Users.HighProfit
use compound_liquidation.Samples.{
  Milli, milli_floats, one, infos_sample, reserve_sample, alice, states_sample, log_sample,
}
use compound_liquidation.Tests.Main.{outside_sample, world_sample, raw_sample, events_sample}

-- 1000 tokens of collateral, and a debt of 760
abbrev large_reserve : CompReserve
large_reserve = record reserve_sample {
  col_amount = pos (1000 * 10 ^ 18);
  debt_amount = pos (760 * 10 ^ 18);
}

abbrev files_sample : CacheFiles Milli
files_sample =
    (cache (record states_sample {
      users_states =
          ("0xalice", record alice { reserves = (coin_ctoken, large_reserve) ∷ [] }) ∷ [];
      ctokens = (coin_ctoken, infos_sample) ∷ [];
    })).0

abbrev coin_contracts : Contracts
coin_contracts = record {
  underlying = λ ctoken_addr. err key_error;
  symbol = λ token. err key_error;
  decimals = λ token. err key_error;
  token_config = λ ctoken_addr. ok ("0xoracle" ∷ [], true ∷ []);
  feed = λ oracle_addr asset. ok "0xFeed";
}

abbrev coin_sources : Sources
coin_sources = record {
  query_aggregator = λ source. ok "0x137924D7C36816E0DcAF016eB617Cc2C92C05782";
  description = λ aggregator. ok "BNB / USD";
  decimals = λ aggregator. ok 8;
}

abbrev node_sample : Node Milli
node_sample = record {
  users_file_status = 1;
  init_block_number = pos 0;
  files = files_sample;
  query_markets_list = ok (coin_ctoken ∷ []);
  vai = "0xvai";
  first_head = err key_error;
  second_head = ok (pos 12);
  last_head = ok (pos 13);
  get_logs = λ filt from_block to_block. ok (log_sample ∷ []);
  contracts = coin_contracts;
  risk_calls = record {
    reserve_factor_mantissa = λ ctoken_addr. ok (pos 1);
    exchange_rate_stored = λ ctoken_addr. ok one;
    protocol_seize_share_mantissa = λ ctoken_addr. err key_error;
  };
  get_underlying_price = λ ctoken_addr. ok one;
  comptroller = record {
    liquidation_incentive_mantissa = ok (pos (11 * 10 ^ 17));
    close_factor_mantissa = ok (pos (5 * 10 ^ 17));
    collateral_factor = λ ctoken_addr. ok (pos (8 * 10 ^ 17));
  };
  sources = coin_sources;
  latest_block = ok (pos 13, pos 5000, none);
  accounts = 1;
  bnb_gas_price = ok (pos 5);
  query_pool = λ pair. ok none;
  light_connection = ok tt;
  price_time = pos 5000;
  health_time = pos 5001;
  filter_time = λ aggr. pos 5002;
}

abbrev globals_of : Result (Outside Milli × World Milli) → Outside Milli × World Milli
globals_of (ok globals) = globals
globals_of (err e) = (outside_sample, world_sample)

abbrev started_sample : Outside Milli × World Milli
started_sample = globals_of (start node_sample outside_sample)

abbrev is_ok : Result (Outside Milli × World Milli) → Bool
is_ok (ok globals) = true
is_ok (err e) = false

has_globals : (r : Result (Outside Milli × World Milli)) → is_ok r ≡ true → r ≡ ok (globals_of r)
has_globals (ok globals) h = refl
has_globals (err e) h = cc

-- alice stands in the list of the aggregator
start_lists :
    (is_ok (start node_sample outside_sample) ≡ true)
    × (started_sample.1.users_pre_filtered
        ≡ ("0x137924d7c36816e0dcaf016eb617cc2c92c05782", "0xalice" ∷ []) ∷ [])
unfolding start vai_state milli_floats each ◌-ℤ◌ trim clear_plug_in user_states reserves_load
    to_list tokens_load Handlers.update vai_update parse_event ◌+ℤ◌ query_ctokens_configs ◌*ℤ◌ fdiv
    sort_by gen_users_with_args signal_calculate_health_factor write_health_factor init_signals
    signals lower current_price health_of init_comet_configs new_ctoken_configs init_send_type
    get_tokens_from_aggr init_router_pools floor_div signal_simulate_health_factor numbered
    risks_to_dict new_ctoken_price users_trimming_wrap users_trimming users_filtering
    HighProfit.update
start_lists = (refl, refl)

start-IsReached_example : IsReached (run started_sample.0 raw_sample events_sample started_sample.1)
start-IsReached_example =
    start-IsReached node_sample outside_sample raw_sample events_sample started_sample
      (has_globals (start node_sample outside_sample) start_lists.0)
