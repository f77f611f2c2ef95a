-- ===== src/Bot/Rounds.antt =====
-- The two rounds that may liquidate: pt of compound.py, on a pending oracle transaction, and
-- liquidation_idle_callback, on the users that pt has left and, block by block, on samples of all users.
pub mod Kept
pub mod Fresh
pub mod Queue
use compound_liquidation.Prelude.{
  ℕ, zero, suc, ◌+◌, ◌%◌, ◌/◌, String, Bool, true, false, Option, none, some, List, [], ◌∷◌, ◌++◌,
  lookup, insert, Result, ok, err, key_error, attribute_error, zero_division, at_key, map_ok,
  get_or, take, drop, str_eq, if◌then◌else◌, ◌==◌,
}
use compound_liquidation.Prelude.{◌>>=◌ as and_then}
use compound_liquidation.Prelude.Int.{ℤ, pos, pos_part, ◌+ℤ◌, leb_ℤ, eqb_ℤ}
use compound_liquidation.Prelude.Text.{int_hex}
use compound_liquidation.Prelude.Float.{Floats}
use compound_liquidation.Prelude.Exec.{Exec, pure, raise, lift, modify, each, ◌>>=◌, ◌>>◌}
use compound_liquidation.Config.{intvl}
use compound_liquidation.Price
use compound_liquidation.Block.{BlockInfos}
use compound_liquidation.Tokens.{CtokenInfos, CtokenConfigs}
use compound_liquidation.Users.{States, current_price}
use compound_liquidation.Users.Queries.{users_filtering, get_users_sampling}
use compound_liquidation.Health.{HealthResult, write_health_factor}
use compound_liquidation.Signals.{
  TxAttributes, tx_filter_and_parsing, no_name, get_tokens_from_aggr_index,
}
use compound_liquidation.Signals.Venues.{get_oracle_price}
use compound_liquidation.Send.{Signed}
use compound_liquidation.Send.Bnb48.{send_transactions}
use compound_liquidation.Liquidation.Start.{Scene, signal_simulate_health_factor}
use compound_liquidation.Bot.{
  World, Outside, Signal, on_states, on_signals, on_desk, on_sender, reads, health_of,
  users_trimming_wrap,
}
use compound_liquidation.Bot.Feeds.{on_price}

-- `get_data_from_queue`, which gives an empty list for an empty queue, and the queue after it
abbrev pub front : List (List String) → List String
front [] = []
front (users ∷ queue) = users

abbrev pub popped : List (List String) → List (List String)
popped [] = []
popped (users ∷ queue) = queue

-- a pending transaction, as the light node sends it
pub record Message : Type 0 where
  pub hash : String
  pub tx_type : String
  pub attributes : TxAttributes
  pub max_priority_fee_per_gas : String

-- the gas price of the last signal, where it came at this block; block numbers are above 0
abbrev pub fresh_gas_price : (block_num : ℤ) → Option Signal → Option ℤ
fresh_gas_price block_num none = none
fresh_gas_price block_num (some sig) =
    if eqb_ℤ (Signal.recv_height sig) block_num then some (Signal.gas_price sig) else none

-- `signals.get_oracle_price` for the configuration of a market
unfoldable pub scaled_price : (price feed_decimals : ℕ) → Option CtokenConfigs → Result ℕ
scaled_price price feed_decimals none = err attribute_error
scaled_price price feed_decimals (some cfg) = get_oracle_price price feed_decimals cfg

-- the fees of the signal's transaction: the gas price, or the priority fee of the second type
unfoldable pub fees : Message → Result (ℤ × ℤ)
fees message =
    if str_eq message.tx_type "0x2"
    then map_ok (λ n. (pos 0, pos n)) (int_hex message.max_priority_fee_per_gas)
    else legacy message.attributes.gas_price
  where
    legacy : Option String → Result (ℤ × ℤ)
    legacy none = err key_error
    legacy (some gas_price) = map_ok (λ n. (pos n, pos 0)) (int_hex gas_price)

module _ {F : Type 0} where
  abbrev pub set_signal : Signal → Exec (World F) (Unit {0})
  set_signal sig = modify λ w. record w { signal_recv = some sig }

  abbrev pub set_pre_filtered : (aggr : String) → List String → Exec (World F) (Unit {0})
  set_pre_filtered aggr users =
      modify λ w. record w { users_pre_filtered = insert aggr users w.users_pre_filtered }

  -- `write_data_from_queue(users_pending, users)`
  abbrev pub leave_pending : List String → Exec (World F) (Unit {0})
  leave_pending users = modify λ w. record w { users_pending = w.users_pending ++ users ∷ [] }

  abbrev scene_of : Outside F → World F → (signal_gas_price : Option ℤ) → Scene F
  scene_of out w signal_gas_price = record {
    ctk = w.states.ctokens;
    comet = w.comet;
    block_infos = w.block_infos;
    pools = Outside.pools out;
    swap = Outside.swap out;
    send_type = Outside.send_type out;
    signal_gas_price = signal_gas_price;
    sign = Outside.sign out;
  }

  -- each result with the index drawn for it
  unfoldable pub numbered :
      (unique_id : ℕ → String) (n : ℕ) → List (HealthResult F) → List (String × HealthResult F)
  numbered unique_id n [] = []
  numbered unique_id n (result ∷ results) =
      (unique_id n, result) ∷ numbered unique_id (n + 1) results

module _ {F : Type 0} ⦃fl : Floats F⦄ where
  abbrev pub simulate :
      Outside F
      → (signal_gas_price : Option ℤ) → List (String × HealthResult F)
      → Exec (World F) (List (Signed F))
  simulate out signal_gas_price results w =
      on_desk (signal_simulate_health_factor (scene_of out w signal_gas_price) results) w

  -- the liquidations of the users, sent, and then their health factors written
  unfoldable pub liquidate :
      Outside F
      → (now : ℤ) → List String
      → (signal_gas_price : Option ℤ) (raw_tx : Option String) → Exec (World F) (Unit {0})
  unfolding numbered
  liquidate out now users signal_gas_price raw_tx = do
    results ← reads (health_of now users)
    coroutines ← simulate out signal_gas_price (numbered (Outside.unique_id out) 0 results)
    on_sender (send_transactions coroutines raw_tx)
    on_states (write_health_factor results)

  -- a user sample, once in twenty blocks, and the list of one aggregator, two blocks later
  unfoldable pub sample_users : (now : ℤ) (index : ℕ) → Exec (World F) (Unit {0})
  sample_users now index = do
    users ← reads (λ w. get_users_sampling w.states index 10)
    users_trim ← reads (users_trimming_wrap users now false)
    results ← reads (health_of now users_trim)
    on_states (write_health_factor results)

  unfoldable pub filter_users : (now : ℤ) (index : ℕ) → Exec (World F) (Unit {0})
  filter_users now index = do
    found ← reads (λ w. get_tokens_from_aggr_index w.signals index)
    users ← reads (λ w. ok (users_filtering w.states found.0))
    users_trim ← reads (users_trimming_wrap users (now +ℤ pos 1200) true)
    set_pre_filtered found.1 users_trim

  -- task 3; block numbers are not negative
  unfoldable pub update_periodically : (now : ℤ) (block_num prev_block : ℤ) → Exec (World F) ℤ
  unfolding sample_users filter_users
  update_periodically now block_num prev_block =
      let index = pos_part block_num in
      if leb_ℤ block_num prev_block
      then pure prev_block
      else if index % (60 / intvl) == 1
      then (sample_users now index >> pure block_num)
      else if index % (60 / intvl) == 3
      then (filter_users now index >> pure block_num)
      else pure block_num

  -- task 2, and task 3 where no user is left
  unfoldable pub take_pending :
      Outside F → (now : ℤ) (block_num prev_block : ℤ) → List String → Exec (World F) ℤ
  unfolding update_periodically liquidate
  take_pending out now block_num prev_block [] = update_periodically now block_num prev_block
  take_pending out now block_num prev_block (usr ∷ users) = do
    gas_price ← reads (λ w. ok (fresh_gas_price block_num w.signal_recv))
    liquidate out now (usr ∷ users) gas_price none
    pure prev_block

  -- task 1, and the others where the first queue gave no users
  unfoldable pub take_continue :
      Outside F → (now : ℤ) (block_num prev_block : ℤ) → List String → Exec (World F) ℤ
  unfolding take_pending liquidate
  take_continue out now block_num prev_block [] w =
      take_pending out now block_num prev_block (front w.users_pending)
        (record w { users_pending = popped w.users_pending })
  take_continue out now block_num prev_block (usr ∷ users) w =
      (liquidate out now (usr ∷ users) none none >> pure prev_block) w

  unfoldable pub liquidation_idle_callback :
      Outside F → (now : ℤ) (prev_block : ℤ) → Exec (World F) ℤ
  unfolding take_continue
  liquidation_idle_callback out now prev_block w =
      take_continue out now w.block_infos.block_num prev_block (front w.users_continue)
        (record w { users_continue = popped w.users_continue })

  -- the new price of one market; `new_price / old_price` raises at an old price of zero
  unfoldable pub take_price : (now : ℤ) → String × ℕ × ℕ → Exec (World F) (Unit {0})
  unfolding scaled_price
  take_price now (token_addr, price, feed_decimals) = do
    infos ← reads (λ w. at_key token_addr w.states.ctokens)
    new_price ← lift (scaled_price price feed_decimals (CtokenInfos.configs infos))
    old_price ← reads (λ w. current_price w.states.ctokens token_addr)
    if eqb_ℤ old_price (pos 0)
        then raise zero_division
        else on_states (on_price token_addr (modify (Price.update (pos new_price) now)))

  -- the users of the aggregator's list: the first twenty at once, and the others later
  unfoldable pub signal_users :
      Outside F → (now : ℤ) → Signal → List String → Exec (World F) (Unit {0})
  unfolding liquidate
  signal_users out now sig [] = pure tt
  signal_users out now sig (usr ∷ users) = do
    liquidate out now (take 20 (usr ∷ users)) (some sig.gas_price) (some sig.raw_tx)
    leave_pending (drop 20 (usr ∷ users))

  -- a signal that was parsed into the new prices of an aggregator
  unfoldable pub on_signal :
      Outside F
      → (now : ℤ) → (raw_of : Message → Result String) → Message
      → List (String × ℕ × ℕ) × String
      → Exec (World F) (Unit {0})
  unfolding take_price fees signal_users
  on_signal out now raw_of message (res, aggr) = do
    raw_transaction ← lift (raw_of message)
    fee ← lift (fees message)
    height ← reads (λ w. ok w.block_infos.block_num)
    let sig : Signal = record {
      hash = message.hash;
      recv_height = height;
      tx_type = message.tx_type;
      gas_price = fee.0;
      priority_fee = fee.1;
      raw_tx = raw_transaction;
    }
    set_signal sig
    each (take_price now) res
    users ← reads (λ w. ok (get_or (lookup aggr w.users_pre_filtered) []))
    signal_users out now sig users

  -- the parsing of a pending transaction
  unfoldable pub parse_signal : Message → Exec (World F) (List (String × ℕ × ℕ) × String)
  parse_signal message = do
    gas_price ← reads (λ w. ok (Floats.of_int fl (BlockInfos.gas_price w.block_infos)))
    parsed ← on_signals (tx_filter_and_parsing message.attributes gas_price)
    reads (λ w. no_name w.signals parsed.0 parsed.1)

  -- what the parsing raises is caught, and the message dropped
  unfoldable pub on_parse :
      Outside F
      → (now : ℤ) → (raw_of : Message → Result String) → Message
      → Result (List (String × ℕ × ℕ) × String)
      → Exec (World F) (Unit {0})
  unfolding on_signal
  on_parse out now raw_of message (err e) = pure tt
  on_parse out now raw_of message (ok parsed) = on_signal out now raw_of message parsed

  -- `pt`, where `raw_of` is the encoding of the transaction by the libraries bxcommon and blxr_rlp
  unfoldable pub pt :
      Outside F
      → (now : ℤ) → (raw_of : Message → Result String) → Message
      → Exec (World F) (Unit {0})
  unfolding parse_signal on_parse
  pt out now raw_of message w =
      let (r, v) = parse_signal message w in on_parse out now raw_of message r v
