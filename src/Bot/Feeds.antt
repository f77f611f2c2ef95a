-- ===== src/Bot/Feeds.antt =====
-- The other messages of the chain: comet_subscribe_callback, signals_subscribe_callback and on_message of
-- compound.py, for the comptroller's parameters, the confirmed prices and the head of the chain.
use compound_liquidation.Prelude.{
  ℕ, suc, ◌+◌, ◌%◌, String, Option, none, some, List, [], ◌∷◌, length, lookup, adjust, Result, ok,
  err, key_error, attribute_error, zero_division, at_key, at_index, map_ok, str_eq, if◌then◌else◌,
  ◌==◌,
}
use compound_liquidation.Prelude.{◌>>=◌ as and_then}
use compound_liquidation.Prelude.Int.{ℤ, pos, negsuc, neg, ltb_ℤ}
use compound_liquidation.Prelude.Text.{lower, int_dec, int_hex}
use compound_liquidation.Prelude.Float.{Floats}
use compound_liquidation.Prelude.Exec.{Exec, pure, raise, lift, modify, each, ◌>>=◌, ◌>>◌}
use compound_liquidation.Chain.{Eth, LogReceipt}
use compound_liquidation.Chain.Light.{LogReceiptLight, converter}
use compound_liquidation.Price
use compound_liquidation.Price.{CtokenPrice}
use compound_liquidation.Tokens.{CtokenInfos}
use compound_liquidation.Block
use compound_liquidation.Comet
use compound_liquidation.Comet.{CometConfigs}
use compound_liquidation.Users.{States, current_price}
use compound_liquidation.Users.Access.{with_ctoken, set_risks}
use compound_liquidation.Signals.{AggregatorInfos}
use compound_liquidation.Signals.Venues.{price_scale, gen_oracle_params}
use compound_liquidation.Send.Bnb48.{update_sender}
use compound_liquidation.Bot.{World, Outside, on_states, on_comet, on_desk, on_sender, reads}

-- `int(price_scale(answer, *args))`: a sign stays in front
unfoldable pub scaled_answer : ℕ × ℕ → ℤ → Result ℤ
scaled_answer args (pos n) = map_ok (λ p. pos p) (int_dec (price_scale n args.0 args.1))
scaled_answer args (negsuc n) =
    map_ok (λ p. neg (pos p)) (int_dec (price_scale (suc n) args.0 args.1))

module _ {F : Type 0} where
  abbrev pub update_comet : Outside F → LogReceipt → Exec (World F) (Unit {0})
  update_comet out log = on_comet (Comet.update (Outside.eth out) log)

  unfoldable pub comet_subscribe_callback : Outside F → LogReceiptLight → Exec (World F) (Unit {0})
  comet_subscribe_callback out response = do
    logs ← lift (converter (Outside.eth out) response)
    old ← reads (λ w. ok (ltb_ℤ (LogReceiptLight.block_number response) w.comet.last_update))
    if old then pure tt else (do
      each (update_comet out) logs
      on_comet (modify λ c. record c { last_update = LogReceiptLight.block_number response }))

  -- a method of `states.ctokens[ctoken_addr].price`
  unfoldable pub on_price :
      (ctoken_addr : String) → Exec CtokenPrice (Unit {0}) → Exec (States F) (Unit {0})
  on_price ctoken_addr m s = found (lookup ctoken_addr s.ctokens)
    where
      save : Result (Unit {0}) × CtokenPrice → Result (Unit {0}) × States F
      save (r, p) = (
        r,
        record s { ctokens = adjust ctoken_addr (λ c. record c { price = some p }) s.ctokens },
      )

      priced : Option CtokenPrice → Result (Unit {0}) × States F
      priced none = (err attribute_error, s)
      priced (some p) = save (m p)

      found : Option CtokenInfos → Result (Unit {0}) × States F
      found none = (err key_error, s)
      found (some c) = priced c.price

  -- the arguments of the scale for one market
  unfoldable pub oracle_params : States F → AggregatorInfos → Result (ℕ × ℕ)
  oracle_params s info = and_then (at_key (AggregatorInfos.token info) s.ctokens) (λ c.
      elim (CtokenInfos.configs c) [
        | none ↦ err attribute_error
        | some cfg ↦ ok (gen_oracle_params (AggregatorInfos.price_decimals info) cfg)
      ])

  -- one market that the aggregator prices
  unfoldable pub confirm_one : Eth → LogReceipt → AggregatorInfos → Exec (States F) (Unit {0})
  unfolding on_price oracle_params scaled_answer
  confirm_one eth log info = do
    args ← (λ s. (oracle_params s info, s))
    on_price (AggregatorInfos.token info) (Price.confirm eth log (scaled_answer args))

  unfoldable pub confirm_log : Outside F → LogReceipt → Exec (World F) (Unit {0})
  unfolding confirm_one
  confirm_log out log = do
    aggr_infos ← reads (λ w. at_key (lower (LogReceipt.address log)) w.signals.signal_token_map)
    each (λ info. on_states (confirm_one (Outside.eth out) log info)) aggr_infos

  unfoldable pub signals_subscribe_callback :
      Outside F → LogReceiptLight → Exec (World F) (Unit {0})
  unfolding confirm_log
  signals_subscribe_callback out response = do
    logs ← lift (converter (Outside.eth out) response)
    each (confirm_log out) logs

-- the head of the chain, from a message that has one
pub record Header : Type 0 where
  pub miner : String
  pub number : String
  pub timestamp : String
  pub base_fee_per_gas : Option String

unfoldable pub base_fee_of : Option String → Result ℤ
base_fee_of none = ok (pos 0)
base_fee_of (some base_fee) =
    if str_eq base_fee "None" then ok (pos 0) else map_ok (λ n. pos n) (int_hex base_fee)

-- the market whose price is the coin's
abbrev pub coin_market : String
coin_market = "0xA07c5b74C9B40447a954e1466938b865b6BBea36"

module _ {F : Type 0} where
  unfoldable pub query_rate : Outside F → (token_addr : String) → Exec (World F) (Unit {0})
  query_rate out token_addr = do
    rate ← lift (Outside.query_exchange_rate out token_addr)
    on_states (with_ctoken token_addr (set_risks λ r. record r { exchange_rate = rate }))

  -- task 2: the exchange rate of one market, which takes turns with the others
  unfoldable pub next_exchange_rate : Outside F → (block_number : ℕ) → Exec (World F) (Unit {0})
  unfolding query_rate
  next_exchange_rate out block_number =
      let count = length (Outside.reserves_init out) in
      if count == 0 then raise zero_division else (do
        token_addr ← lift (at_index (Outside.reserves_init out) (block_number % count))
        query_rate out token_addr)

  -- task 3: a price that stayed unconfirmed is taken back
  unfoldable pub revert_price : (now : ℤ) → String → Exec (World F) (Unit {0})
  unfolding on_price
  revert_price now reserve = on_states (on_price reserve (modify (Price.revert now)))

-- task 4: the nonces of the accounts, from the account `i`
unfoldable pub fetch_nonces :
    (transaction_count : ℕ → Result ℕ) (i : ℕ) → List ℕ → Result (Unit {0}) × List ℕ
fetch_nonces transaction_count i [] = (ok tt, [])
fetch_nonces transaction_count i (nonce ∷ nonces) =
    let rest = fetch_nonces transaction_count (i + 1) nonces in
    elim (transaction_count i) [ err e ↦ (err e, nonce ∷ nonces) | ok n ↦ (rest.0, n ∷ rest.1) ]

module _ {F : Type 0} where
  -- task 1
  abbrev pub update_head :
      (block_number block_timestamp base_fee gas_price : ℤ) → Exec (World F) (Unit {0})
  update_head block_number block_timestamp base_fee gas_price = modify λ w. record w {
    block_infos = Block.update block_number block_timestamp base_fee gas_price w.block_infos;
  }

  abbrev pub update_nonces : Outside F → Exec (World F) (Unit {0})
  update_nonces out = on_desk (λ d.
      let (r, nonces) = fetch_nonces (Outside.transaction_count out) 0 d.nonces in
      (r, record d { nonces = nonces }))

module _ {F : Type 0} ⦃fl : Floats F⦄ where
  -- task 5: `sender.update`
  unfoldable pub update_sender_at : Outside F → Exec (World F) (Unit {0})
  update_sender_at out = do
    price ← reads (λ w. current_price w.states.ctokens coin_market)
    on_sender (update_sender (Outside.sender_nonce out) (Outside.sender_balance out) price)

  -- a message without a result changes nothing
  unfoldable pub on_message : Outside F → (now : ℤ) → Option Header → Exec (World F) (Unit {0})
  unfolding base_fee_of next_exchange_rate revert_price fetch_nonces update_sender_at
  on_message out now none = pure tt
  on_message out now (some header) = do
    block_number ← lift (int_hex header.number)
    block_timestamp ← lift (int_hex header.timestamp)
    base_fee ← lift (base_fee_of header.base_fee_per_gas)
    gas_price ← lift (Outside.gas_price out)
    update_head (pos block_number) (pos block_timestamp) base_fee gas_price
    next_exchange_rate out block_number
    each (revert_price now) (Outside.reserves_init out)
    update_nonces out
    update_sender_at out
