-- ===== src/Tests/Main.antt =====
-- The theorems on the callbacks of compound.py and on the sender at concrete inputs.
use compound_liquidation.Prelude.{
  ℕ, ◌≡◌, ◌⊎◌, refl, String, true, false, some, none, List, [], ◌∷◌, Result, ok, All, arith, str_eq,
  if◌then◌else◌,
}
use compound_liquidation.Prelude.Int.{pos, ◌+ℤ◌, ◌*ℤ◌, fdiv}
use compound_liquidation.Prelude.Sort.{IsSortedBy, sort_by}
use compound_liquidation.Chain.Light.{LogReceiptLight}
use compound_liquidation.Signals.{Signals}
use compound_liquidation.Users.{UserStates}
use compound_liquidation.Health.{
  gen_users_with_args, signal_calculate_health_factor, write_health_factor,
}
use compound_liquidation.Liquidation.Start.{signal_simulate_health_factor}
use compound_liquidation.Health.Trimming.{value_of}
use compound_liquidation.Router.{swap_simulation}
use compound_liquidation.Send.{Signed, SendType, TxKind, is_held, best_offers, bribe}
use compound_liquidation.Send.Bnb48.{
  Bnb48, send_transactions, x, sum_profits, send_offers, send_each,
}
use compound_liquidation.Send.Bnb48.Offers.{IsRefused, send_transactions-IsRefused}
use compound_liquidation.Bot.{World, Outside, health_of}
use compound_liquidation.Bot.Logs.{insert_at, place_of}
use compound_liquidation.Bot.Nearby.Idle.{IsReached}
use compound_liquidation.Bot.Nearby.Reached.{run-IsReached}
use compound_liquidation.Bot.Nearby.{below_by, place_of-IsSorted}
use compound_liquidation.Bot.Rounds.{Message, liquidation_idle_callback, numbered}
use compound_liquidation.Bot.Rounds.Fresh.{AllFresh}
use compound_liquidation.Bot.Rounds.Queue.{idle_step, idle_rounds, IsWaiting, idle_rounds-fresh}
use compound_liquidation.Bot.Series.{Event, user_logs, comet_logs, idle, run}
use compound_liquidation.Bot.Blocks.Updates.{IsLater}
use compound_liquidation.Bot.Blocks.Forward.{run-IsLater}
use compound_liquidation.Samples.{
  Milli, milli_floats, milli_laws, market, one, comet_sample, alice, states_sample, eth_sample,
}

abbrev bnb48_sample : Bnb48 Milli
bnb48_sample = record {
  sender = record { lock = true; counter = 0 };
  bnb_price = pos 300000;
  storage = [];
  nonce = 4;
  balance = pos 1000;
  bnb_gas_price = pos 5;
}

abbrev no_signals : Signals
no_signals = record {
  signal_token_map = [];
  token_signal_map = [];
  signals_event_filter_light = [];
  signals_epoch = [];
}

-- bob has no reserves
abbrev bob : UserStates Milli
bob = record {
  reserves = [];
  health_factor = record { value = pos 1100; debt_volume = pos 0; last_update = pos 0 };
  vai_repay = pos 0;
}

abbrev pub world_sample : World Milli
world_sample = record {
  states = record states_sample { users_states = ("0xalice", alice) ∷ ("0xbob", bob) ∷ [] };
  high = record { parent = []; debt_desired = pos 200; update_users = [] };
  comet = comet_sample;
  signals = no_signals;
  block_infos = record {
    block_num = pos 100;
    block_time = pos 5000;
    base_fee = pos 1;
    gas_price = pos 5;
  };
  users_pre_filtered = [];
  users_continue = [];
  users_pending = [] ∷ ("0xbob" ∷ []) ∷ [];
  desk = record { rout_tokens = []; users_to_liquidate = []; nonces = 7 ∷ [] };
  sender = bnb48_sample;
  signal_recv = none;
}

abbrev send_type_sample : SendType Milli
send_type_sample = record {
  gas_limit = pos 3000000;
  estimate_gas = pos 1500000;
  mev_ratio = pos 0;
  aggr = "";
  map_sig = TxKind.type0;
  map_net = TxKind.type0;
  price_token = none;
  price_decimals = none;
}

abbrev pub outside_sample : Outside Milli
outside_sample = record {
  eth = eth_sample;
  reserves_init = market ∷ [];
  pools = [];
  swap = swap_simulation;
  send_type = send_type_sample;
  get_assets_in = λ usr. market ∷ [];
  query_user_vai_repay = λ usr. ok (pos 0);
  query_exchange_rate = λ token. ok one;
  gas_price = ok (pos 5);
  transaction_count = λ i. ok 8;
  sender_nonce = ok 4;
  sender_balance = ok (pos 1000);
  unique_id = λ n. "7";
  sign = λ account nonce tx input. "0xsigned";
}

abbrev pub response_sample : LogReceiptLight
response_sample = record { block_hash = "0xaa"; block_number = pos 12; events = some [] }

abbrev pub raw_sample : Message → Result String
raw_sample message = ok "0xraw"

abbrev pub events_sample : List Event
events_sample =
    user_logs (pos 6000) response_sample
    ∷ comet_logs response_sample
    ∷ idle (pos 6003) (pos 99)
    ∷ []

run-IsLater_example :
    IsLater world_sample (run outside_sample raw_sample events_sample world_sample)
run-IsLater_example = run-IsLater outside_sample raw_sample events_sample world_sample

abbrev near_sample : World Milli
near_sample = record world_sample { users_pre_filtered = ("0xaggr", "0xbob" ∷ []) ∷ [] }

abbrev factor_sample : String → Milli
factor_sample usr = if str_eq usr "0xbob" then pos 1100 else pos 1050

place_of-IsSorted_example :
    ((place_of world_sample.states (pos 1050) 0 ("0xbob" ∷ []) ≡ ok 0)
      × All (λ u. below_by factor_sample "0xalice" u ≡ false) ("0xbob" ∷ []))
    ⊎ ((k : ℕ) × (place_of world_sample.states (pos 1050) 0 ("0xbob" ∷ []) ≡ ok k)
        × IsSortedBy (below_by factor_sample) (insert_at k "0xalice" ("0xbob" ∷ [])))
unfolding value_of milli_floats
place_of-IsSorted_example =
    place_of-IsSorted world_sample.states factor_sample "0xalice" (λ a b c h k. ground arith)
      ("0xbob" ∷ []) (refl, tt) (tt, tt)

idle_rounds-fresh_example :
    IsWaiting outside_sample [] (
      idle_step outside_sample
        (pos 6006, pos 99)
        (idle_rounds outside_sample ((pos 6003, pos 100) ∷ []) world_sample))
    × AllFresh (pos 6006) ("0xbob" ∷ []) (
        idle_step outside_sample
          (pos 6006, pos 99)
          (idle_rounds outside_sample ((pos 6003, pos 100) ∷ []) world_sample))
unfolding liquidation_idle_callback health_of gen_users_with_args signal_calculate_health_factor
    signal_simulate_health_factor numbered send_transactions is_held write_health_factor
    milli_floats ◌*ℤ◌ fdiv ◌+ℤ◌ sort_by
idle_rounds-fresh_example =
    idle_rounds-fresh outside_sample ((pos 6003, pos 100) ∷ []) ([] ∷ []) [] "0xbob" [] (pos 6006)
      (pos 99) (pos 99) world_sample refl (refl, refl) refl

abbrev offer_sample : Signed Milli
offer_sample = record { index = "7"; raw = "0xsigned"; profit = pos 1000 }

send_transactions-IsRefused_example :
    All (IsRefused bnb48_sample) (best_offers (offer_sample ∷ []))
    × ((send_transactions (offer_sample ∷ []) (some "0xsignal") bnb48_sample).1
        ≡ record bnb48_sample { nonce = 6 })
unfolding best_offers sort_by send_transactions is_held x bribe sum_profits send_offers send_each
    milli_floats ◌*ℤ◌ fdiv ◌+ℤ◌
send_transactions-IsRefused_example =
    send_transactions-IsRefused (offer_sample ∷ []) (some "0xsignal") bnb48_sample refl refl

run-IsReached_example : IsReached (run outside_sample raw_sample events_sample near_sample)
run-IsReached_example =
    run-IsReached outside_sample raw_sample events_sample near_sample
      (((refl, tt), (tt, tt)), ((tt, tt), tt))
