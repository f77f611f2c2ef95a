-- ===== src/Tests/Setup.antt =====
-- The theorems on the start-up and on the subscriptions at concrete inputs.
use Prim.Native.String.{count}
use compound_liquidation.Prelude.{
  ℕ, zero, suc, String, true, false, Option, some, List, [], ◌∷◌, Dict, Result, ok, err, key_error,
  value_error, All, Bool-cases, inl, inr, ap, sym, ok_injective, ◌≡◌, refl, ◌++◌, str_eq,
  if◌then◌else◌, leb, length, take, lookup,
}
use compound_liquidation.Prelude.Int.{ℤ, pos}
use compound_liquidation.Prelude.Exec.{Exec, modify, each}
use compound_liquidation.Prelude.Text.{lower, slice_from, from_hex}
use compound_liquidation.Config.{address_zero}
use compound_liquidation.Tokens.{CtokenInfos, CtokenConfigs}
use compound_liquidation.Router.{Pool}
use compound_liquidation.Router.Pools.{
  FactoryV2, FactoryV3, PoolV3, fee_tiers, query_max_liq_pool, query_max_liq_pool_v3, IsPoolOf,
  IsLargest, query_max_liq_pool_v3-IsLargest,
}
use compound_liquidation.Router.Setup.{
  init_router_pools, later_pairs, HasMarketPool, init_router_pools-HasMarketPool, underlying_of,
}
use compound_liquidation.Signals.{Signals, signals, signal_token_inverse}
use compound_liquidation.Signals.Setup.{Sources, init_signals}
use compound_liquidation.Signals.Sources.{aggregator_of, AllUnder}
use compound_liquidation.Signals.Inverse.{init_signals-inverse}
use compound_liquidation.Protocol.{RiskCalls, complete_ctokens, query_ctokens_configs, Contracts}
use compound_liquidation.Protocol.Completed.{IsComplete, complete_ctokens-IsComplete}
use compound_liquidation.Subscriptions.{
  Received, Session, refused, connected, waiting, stopped, txs, timeout, Stream, no_connection,
  stream, subscribe_event_light, subscribe_full, get_pending_transactions_light,
}
use compound_liquidation.Subscriptions.Sessions.{
  after_sessions, Serves, subscribe_event_light-messages, subscribe_full-counted,
}
use compound_liquidation.Subscriptions.Pending.{
  after_streams, get_pending_transactions_light-streams,
}
use compound_liquidation.Chain.Light.{LogReceiptLight, LogEventLight, converter}
use compound_liquidation.Bot.{World}
use compound_liquidation.Bot.Logs.{users_subscribe_callback}
use compound_liquidation.Tests.Main.{outside_sample, world_sample, response_sample}
use compound_liquidation.Samples.{Milli, milli_floats, infos_sample, market}

-- a pool at two of the fees
abbrev factory_v3_sample : FactoryV3
factory_v3_sample = record {
  get_pool = λ a b fee. elim fee [
    | zero ↦ ok address_zero
    | suc n ↦
        if leb 3000 n then ok "0xlarge" else if leb 499 n then ok "0xsmall" else ok address_zero
  ];
  liquidity_of = λ pair_addr. if str_eq pair_addr "0xlarge" then ok 9 else ok 4;
}

abbrev large_pool : Option PoolV3
large_pool =
    some (record { pair = ("0xa", "0xb"); pool_addr = "0xlarge"; liquidity = 9; fee = 10000 })

query_max_liq_pool_v3-IsLargest_example :
    IsPoolOf factory_v3_sample ("0xa", "0xb") large_pool
    × IsLargest factory_v3_sample ("0xa", "0xb") fee_tiers large_pool
unfolding query_max_liq_pool_v3
query_max_liq_pool_v3-IsLargest_example =
    query_max_liq_pool_v3-IsLargest factory_v3_sample ("0xa", "0xb") large_pool refl

abbrev factory_sample : FactoryV2
factory_sample = record {
  get_pair = λ a b. ok "0xpair";
  get_reserves = λ pair_addr. ok (pos 100, pos 200);
}

abbrev contracts_sample : Contracts
contracts_sample = record {
  underlying = λ ctoken_addr. ok (if str_eq ctoken_addr market then "0xaaa" else "0xbbb");
  symbol = λ token. ok "T";
  decimals = λ token. ok 18;
  token_config = λ ctoken_addr. ok ("0xoracle" ∷ [], true ∷ []);
  feed = λ oracle_addr asset. ok "0xFeed";
}

abbrev risk_calls_sample : RiskCalls
risk_calls_sample = record {
  reserve_factor_mantissa = λ ctoken_addr. ok (pos 1);
  exchange_rate_stored = λ ctoken_addr. ok (pos 2);
  protocol_seize_share_mantissa = λ ctoken_addr. err key_error;
}

abbrev markets_sample : List String
markets_sample = market ∷ "0xother" ∷ []

abbrev bare_sample : Dict CtokenInfos
bare_sample = (market, infos_sample) ∷ ("0xother", infos_sample) ∷ []

abbrev priced : String → Result ℤ
priced ctoken_addr = ok (pos 7)

abbrev completed_sample : Dict CtokenInfos
completed_sample =
    (complete_ctokens (query_ctokens_configs contracts_sample) risk_calls_sample priced (pos 5)
      markets_sample bare_sample).1

complete_ctokens-IsComplete_example : All (λ r. IsComplete r completed_sample) markets_sample
unfolding complete_ctokens query_ctokens_configs each
complete_ctokens-IsComplete_example =
    complete_ctokens-IsComplete (query_ctokens_configs contracts_sample) risk_calls_sample priced
      (pos 5) markets_sample bare_sample tt refl

abbrev configs_of : String → CtokenConfigs
configs_of underlying = record {
  ctoken = market;
  underlying = underlying;
  symbol = "T";
  decimals = pos 8;
  base_units = 0;
  price_source = pos 0;
  price_fixed = pos 0;
  swap_router = "0x";
  reporter = "0xFeed";
  reporter_multiplier = 0;
  is_uniswap_reversed = false;
  underlying_decimals = 18;
}

abbrev configured_sample : Dict CtokenInfos
configured_sample =
    (market, record infos_sample { configs = some (configs_of "0xaaa") })
    ∷ ("0xother", record infos_sample { configs = some (configs_of "0xbbb") })
    ∷ []

abbrev pools_sample : Dict (Option Pool)
pools_sample =
    let query = query_max_liq_pool factory_sample 25 in
    (init_router_pools query markets_sample configured_sample []).1

long_underlying :
    (reserve token : String) → underlying_of configured_sample reserve ≡ ok token → count token ≡ 5
unfolding underlying_of
long_underlying reserve token h = elim (Bool-cases (str_eq market reserve)) [
  | inl e ↦ ap count (sym (ok_injective "0xaaa" token (rw e at h)))
  | inr e ↦ elim (Bool-cases (str_eq "0xother" reserve)) [
    | inl e' ↦ ap count (sym (ok_injective "0xbbb" token (rw (e, e') at h)))
    | inr e' ↦ let bad = rw (e, e') at h in cc
  ]
]

init_router_pools-HasMarketPool_example :
    All
      (λ pair.
        HasMarketPool (query_max_liq_pool factory_sample 25) configured_sample pair pools_sample)
      (later_pairs markets_sample)
unfolding init_router_pools query_max_liq_pool each underlying_of
init_router_pools-HasMarketPool_example =
    init_router_pools-HasMarketPool (query_max_liq_pool factory_sample 25) 5 markets_sample
      configured_sample [] long_underlying tt refl

abbrev sources_sample : Sources
sources_sample = record {
  query_aggregator = λ source. ok "0xAggr";
  description = λ aggregator. ok "T / USD";
  decimals = λ aggregator. ok 8;
}

abbrev signals_sample : Signals
signals_sample = record {
  signal_token_map =
      (
        "0xaggr",
        record { token = market; pair_symbols = "T" ∷ "USD" ∷ []; price_decimals = 8 }
            ∷ record { token = "0xother"; pair_symbols = "T" ∷ "USD" ∷ []; price_decimals = 8 }
            ∷ [],
      )
      ∷ [];
  token_signal_map = (market, "0xaggr") ∷ ("0xother", "0xaggr") ∷ [];
  signals_event_filter_light = (("to", "0xAggr") ∷ []) ∷ (("to", "0xAggr") ∷ []) ∷ [];
  signals_epoch = [];
}

init_signals-inverse_example :
    All
      (λ reserve.
        aggregator_of sources_sample configured_sample reserve
        ≡ ok (lookup reserve signals_sample.token_signal_map))
      markets_sample
    × AllUnder sources_sample configured_sample signals_sample.signal_token_map
unfolding init_signals signals signal_token_inverse lower
init_signals-inverse_example =
    init_signals-inverse sources_sample markets_sample configured_sample signals_sample refl

-- the callback of the samples writes down what it gets
abbrev write_down : ℕ → Exec (List ℕ) (Unit {0})
write_down m = modify λ l. l ++ (m ∷ [])

abbrev message : ℕ → Received ℕ
message n = record { message = n; error_text = "" }

abbrev sessions_sample : List (Session ℕ)
sessions_sample =
    connected (message 1 ∷ message 2 ∷ []) "code = 1006"
    ∷ refused "timeout"
    ∷ connected (message 3 ∷ []) "reset"
    ∷ refused "timeout"
    ∷ refused "timeout"
    ∷ connected (message 4 ∷ []) "reset"
    ∷ []

-- the callback of the users' logs, on a message that makes it raise and on others
abbrev on_logs : LogReceiptLight → Exec (World Milli) (Unit {0})
on_logs = users_subscribe_callback outside_sample (pos 6000)

abbrev bad_event : LogEventLight
bad_event = record {
  address = market;
  topics = "0xzz" ∷ [];
  tx_index = pos 0;
  data_hex = "0x";
  transaction_hash = "0x";
}

abbrev bad_response : LogReceiptLight
bad_response = record response_sample { events = some (bad_event ∷ []) }

on_logs-raises : (on_logs bad_response world_sample).0 ≡ err value_error
unfolding users_subscribe_callback converter slice_from from_hex
on_logs-raises = refl

abbrev received_sample : List (Received LogReceiptLight)
received_sample =
    record { message = response_sample; error_text = "" }
    ∷ record { message = bad_response; error_text = "non-hexadecimal number found" }
    ∷ record { message = response_sample; error_text = "" }
    ∷ []

abbrev log_sessions : List (Session LogReceiptLight)
log_sessions =
    connected received_sample "code = 1006"
    ∷ refused "timeout"
    ∷ connected received_sample "reset"
    ∷ connected [] "code = 1006"
    ∷ refused "timeout"
    ∷ refused "timeout"
    ∷ []

subscribe_event_light-messages_example :
    subscribe_event_light on_logs "light" log_sessions world_sample ≡ (
      if leb 5 (length log_sessions) then stopped else waiting,
      after_sessions on_logs (take 5 log_sessions) world_sample,
    )
subscribe_event_light-messages_example =
    subscribe_event_light-messages on_logs "light" log_sessions world_sample

subscribe_full-counted_example :
    Serves on_logs "full" 3 log_sessions world_sample
      (subscribe_full on_logs "full" 0 log_sessions world_sample)
subscribe_full-counted_example = subscribe_full-counted on_logs "full" log_sessions world_sample

abbrev streams_sample : List (Stream ℕ)
streams_sample =
    stream (txs (1 ∷ 2 ∷ []) ∷ timeout ∷ txs (3 ∷ []) ∷ [])
    ∷ no_connection
    ∷ stream (txs (4 ∷ []) ∷ [])
    ∷ stream (txs (5 ∷ []) ∷ [])
    ∷ []

get_pending_transactions_light-streams_example :
    get_pending_transactions_light write_down 0 streams_sample [] ≡ (
      if leb 3 (length streams_sample) then stopped else waiting,
      after_streams write_down (take 3 streams_sample) [],
    )
get_pending_transactions_light-streams_example =
    get_pending_transactions_light-streams write_down streams_sample []

-- the runs behind the witnesses
subscription_samples :
    (subscribe_event_light write_down "light" sessions_sample [] ≡ (stopped, 1 ∷ 2 ∷ 3 ∷ []))
    × ((subscribe_full write_down "full" 0 sessions_sample []).0 ≡ stopped)
    × (get_pending_transactions_light write_down 0 streams_sample []
        ≡ (stopped, 1 ∷ 2 ∷ 3 ∷ 4 ∷ []))
unfolding subscribe_event_light subscribe_full get_pending_transactions_light each
subscription_samples = (refl, refl, refl)
