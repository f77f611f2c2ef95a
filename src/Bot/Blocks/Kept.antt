-- ===== src/Bot/Blocks/Kept.antt =====
-- About the two blocks of the last updates and the callbacks for prices, for the head of the chain, and for
-- liquidations.
use compound_liquidation.Prelude.{
  ℕ, String, refl, Option, none, some, List, Dict, length, at_key, at_index, ◌==◌, ◌%◌,
}
use compound_liquidation.Prelude.Int.{ℤ, pos}
use compound_liquidation.Prelude.Text.{int_hex, lower}
use compound_liquidation.Prelude.Float.{Floats}
use compound_liquidation.Prelude.Exec.{Exec, modify}
use compound_liquidation.Prelude.Keeps.{
  Keeps, Keeps-bind, Keeps-pure, Keeps-lift, Keeps-reads, Keeps-if, Keeps-each, Keeps-map,
}
use compound_liquidation.Price
use compound_liquidation.Chain.{Eth, LogReceipt}
use compound_liquidation.Chain.Light.{LogReceiptLight, converter}
use compound_liquidation.Signals.{Signals, AggregatorInfos}
use compound_liquidation.Users.{States, current_price}
use compound_liquidation.Price.{CtokenPrice}
use compound_liquidation.Bot.Feeds.{on_price}
use compound_liquidation.Users.Access.{set_risks}
use compound_liquidation.Users.Block.{block_of, block-with_ctoken}
use compound_liquidation.Send.Bnb48.{Bnb48}
use compound_liquidation.Bot.{World, Outside, Signal, on_signals, on_sender, on_states}
use compound_liquidation.Bot.Feeds.{
  oracle_params, scaled_answer, confirm_one, confirm_log, signals_subscribe_callback, Header,
  base_fee_of, query_rate, next_exchange_rate, revert_price, update_sender_at, on_message,
  coin_market, update_head, update_nonces,
}
use compound_liquidation.Bot.Rounds.{set_signal, leave_pending}
use compound_liquidation.Bot.Rounds.Kept.{watched}
use compound_liquidation.Bot.Blocks.Parts.{blocks, KeepsBlocks, blocks-on_states, block-on_price}

module _ {F : Type 0} where
  pub blocks_of : {A : Type 0} {m : Exec (World F) A} → Keeps watched m → KeepsBlocks m
  blocks_of h = Keeps-map (λ p. p.0) h

  -- the lists of users near liquidation too
  abbrev pub all_of : World F → ((ℤ × ℤ) × List String) × Dict (List String)
  all_of w = (blocks w, w.users_pre_filtered)

  abbrev pub KeepsAll : {A : Type 0} → Exec (World F) A → Type 0
  KeepsAll m = Keeps all_of m

module _ {F : Type 0} where
  pub all-on_states :
      {A : Type 0} {m : Exec (States F) A} → Keeps block_of m → KeepsAll (on_states m)
  all-on_states h = record { at = λ w i. (Keeps.at (blocks-on_states h) w i, w.users_pre_filtered) }

  pub all-on_price :
      (ctoken_addr : String) (m : Exec CtokenPrice (Unit {0}))
      → KeepsAll {F = F} (on_states (on_price ctoken_addr m))
  all-on_price ctoken_addr m = all-on_states (block-on_price ctoken_addr m)

  -- what changes neither the users nor the comptroller's parameters
  pub all-on_signals : {A : Type 0} (m : Exec Signals A) → KeepsAll {F = F} (on_signals m)
  all-on_signals m = record { at = λ w. refl }

  pub all-on_sender : {A : Type 0} (m : Exec (Bnb48 F) A) → KeepsAll (on_sender m)
  all-on_sender m = record { at = λ w. refl }

  pub all-head : (n t fee gas : ℤ) → KeepsAll {F = F} (update_head n t fee gas)
  all-head n t fee gas = record { at = λ w. refl }

  pub all-nonces : (out : Outside F) → KeepsAll (update_nonces out)
  all-nonces out = record { at = λ w. refl }

  pub all-leave_pending : (users : List String) → KeepsAll {F = F} (leave_pending users)
  all-leave_pending users = record { at = λ w. refl }

  pub all-set_signal : (sig : Signal) → KeepsAll {F = F} (set_signal sig)
  all-set_signal sig = record { at = λ w. refl }

module _ {F : Type 0} ⦃fl : Floats F⦄ where
  block-confirm_one :
      (eth : Eth) (log : LogReceipt) (info : AggregatorInfos)
      → Keeps block_of (confirm_one {F = F} eth log info)
  unfolding confirm_one
  block-confirm_one eth log info = Keeps-bind (Keeps-reads (λ s. oracle_params s info)) (λ args.
      block-on_price (AggregatorInfos.token info) (Price.confirm eth log (scaled_answer args)))

  pub all-confirm_log : (out : Outside F) (log : LogReceipt) → KeepsAll (confirm_log out log)
  unfolding confirm_log
  all-confirm_log out log =
      Keeps-bind
        (Keeps-reads
          (λ (w : World F). at_key (lower (LogReceipt.address log)) w.signals.signal_token_map))
        (λ infos.
          Keeps-each (λ info. all-on_states (block-confirm_one (Outside.eth out) log info)) infos)

  pub all-price_logs :
      (out : Outside F) (response : LogReceiptLight)
      → KeepsAll (signals_subscribe_callback out response)
  unfolding signals_subscribe_callback
  all-price_logs out response =
      Keeps-bind (Keeps-lift (converter (Outside.eth out) response))
        (λ logs. Keeps-each (all-confirm_log out) logs)

  pub all-query_rate : (out : Outside F) (token : String) → KeepsAll (query_rate out token)
  unfolding query_rate
  all-query_rate out token =
      Keeps-bind (Keeps-lift (Outside.query_exchange_rate out token)) (λ rate.
        all-on_states (block-with_ctoken token (set_risks λ r. record r { exchange_rate = rate })))

  pub all-next_exchange_rate : (out : Outside F) (n : ℕ) → KeepsAll (next_exchange_rate out n)
  unfolding next_exchange_rate
  all-next_exchange_rate out n =
      let count = length (Outside.reserves_init out) in
      Keeps-if (count == 0) (record { at = λ w. refl })
        (Keeps-bind (Keeps-lift (at_index (Outside.reserves_init out) (n % count)))
          (λ token. all-query_rate out token))

  pub all-revert_price : (now : ℤ) (reserve : String) → KeepsAll {F = F} (revert_price now reserve)
  unfolding revert_price
  all-revert_price now reserve = all-on_price reserve (modify (Price.revert now))

  pub all-update_sender_at : (out : Outside F) → KeepsAll (update_sender_at out)
  unfolding update_sender_at
  all-update_sender_at out =
      Keeps-bind (Keeps-reads (λ (w : World F). current_price w.states.ctokens coin_market))
        (λ price. record { at = λ w. refl })

  pub all-on_message :
      (out : Outside F) (now : ℤ) (header : Option Header) → KeepsAll (on_message out now header)
  unfolding on_message
  all-on_message out now none = Keeps-pure tt
  all-on_message out now (some header) = Keeps-bind (Keeps-lift (int_hex header.number)) (λ n.
      Keeps-bind (Keeps-lift (int_hex header.timestamp)) (λ t.
        Keeps-bind (Keeps-lift (base_fee_of header.base_fee_per_gas)) (λ fee.
          Keeps-bind (Keeps-lift (Outside.gas_price out)) (λ gas.
            Keeps-bind (all-head (pos n) (pos t) fee gas) (λ _.
              Keeps-bind (all-next_exchange_rate out n) (λ _.
                Keeps-bind (Keeps-each (all-revert_price now) (Outside.reserves_init out))
                  (λ _. Keeps-bind (all-nonces out) (λ _. all-update_sender_at out))))))))
