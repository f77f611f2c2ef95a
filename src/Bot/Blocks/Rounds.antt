-- ===== src/Bot/Blocks/Rounds.antt =====
-- About the two blocks of the last updates and the rounds that may liquidate.
use compound_liquidation.Prelude.{
  ℕ, String, refl, Option, none, some, List, [], ◌∷◌, Result, ok, err, at_key, get_or, lookup, take,
  drop, ◌∙◌,
}
use compound_liquidation.Prelude.Int.{ℤ, pos, eqb_ℤ}
use compound_liquidation.Prelude.Float.{Floats}
use compound_liquidation.Prelude.Exec.{Exec, modify}
use compound_liquidation.Prelude.Keeps.{
  Keeps, Keeps-bind, Keeps-pure, Keeps-lift, Keeps-reads, Keeps-if, Keeps-each,
}
use compound_liquidation.Price
use compound_liquidation.Block.{BlockInfos}
use compound_liquidation.Tokens.{CtokenInfos}
use compound_liquidation.Signals.{tx_filter_and_parsing, no_name}
use compound_liquidation.Users.{current_price}
use compound_liquidation.Price.{CtokenPrice}
use compound_liquidation.Health.{HealthResult}
use compound_liquidation.Bot.Rounds.{numbered, simulate, liquidate}
use compound_liquidation.Send.Bnb48.{send_transactions}
use compound_liquidation.Send.Bnb48.{Bnb48}
use compound_liquidation.Bot.{World, Outside, Signal, on_sender, health_of}
use compound_liquidation.Bot.Rounds.{
  Message, take_continue, liquidation_idle_callback, scaled_price, take_price, fees, signal_users,
  on_signal, parse_signal, on_parse, pt, front, popped,
}
use compound_liquidation.Bot.Rounds.Kept.{watched-liquidate, watched-take_pending}
use compound_liquidation.Bot.Blocks.Parts.{KeepsBlocks}
use compound_liquidation.Bot.Blocks.Kept.{
  KeepsAll, blocks_of, all-on_signals, all-on_price, all-leave_pending, all-set_signal,
}

module _ {F : Type 0} where
  lists-on_sender :
      {A : Type 0} (m : Exec (Bnb48 F) A)
      → Keeps (λ (w : World F). w.users_pre_filtered) (on_sender m)
  lists-on_sender m = record { at = λ w. refl }

  lists-simulate :
      ⦃fl : Floats F⦄ (out : Outside F) (gas : Option ℤ) (results : List (String × HealthResult F))
      → Keeps (λ (w : World F). w.users_pre_filtered) (simulate out gas results)
  lists-simulate out gas results = record { at = λ w. refl }

module _ {F : Type 0} ⦃fl : Floats F⦄ where
  lists-liquidate :
      (out : Outside F) (now : ℤ) (users : List String) (gas : Option ℤ) (raw : Option String)
      → Keeps (λ (w : World F). w.users_pre_filtered) (liquidate out now users gas raw)
  unfolding liquidate
  lists-liquidate out now users gas raw = Keeps-bind (Keeps-reads (health_of now users)) (λ results.
      Keeps-bind (lists-simulate out gas (numbered (Outside.unique_id out) 0 results))
        (λ coroutines.
          Keeps-bind (lists-on_sender (send_transactions coroutines raw))
            (λ _. record { at = λ w. refl })))

  pub all-liquidate :
      (out : Outside F) (now : ℤ) (users : List String) (gas : Option ℤ) (raw : Option String)
      → KeepsAll (liquidate out now users gas raw)
  all-liquidate out now users gas raw = record {
    at = λ w i. (
      Keeps.at (blocks_of (watched-liquidate out now users gas raw)) w i,
      Keeps.at (lists-liquidate out now users gas raw) w i,
    );
  }

  blocks-take_continue :
      (out : Outside F) (now block_num prev_block : ℤ) (users : List String)
      → KeepsBlocks (take_continue out now block_num prev_block users)
  unfolding take_continue
  blocks-take_continue out now block_num prev_block [] = record {
    at = λ w.
        Keeps.at
          (blocks_of (watched-take_pending out now block_num prev_block (front w.users_pending)))
          (record w { users_pending = popped w.users_pending });
  }
  blocks-take_continue out now block_num prev_block (usr ∷ users) =
      Keeps-bind (blocks_of (watched-liquidate out now (usr ∷ users) none none))
        (λ _. Keeps-pure prev_block)

  pub blocks-idle :
      (out : Outside F) (now prev_block : ℤ)
      → KeepsBlocks (liquidation_idle_callback out now prev_block)
  unfolding liquidation_idle_callback
  blocks-idle out now prev_block = record {
    at = λ w.
        Keeps.at
          (blocks-take_continue out now w.block_infos.block_num prev_block (front w.users_continue))
          (record w { users_continue = popped w.users_continue });
  }

  all-take_price : (now : ℤ) (r : String × ℕ × ℕ) → KeepsAll {F = F} (take_price now r)
  unfolding take_price
  all-take_price now (token, price, feed_decimals) =
      Keeps-bind (Keeps-reads (λ (w : World F). at_key token w.states.ctokens)) (λ infos.
        Keeps-bind (Keeps-lift (scaled_price price feed_decimals (CtokenInfos.configs infos)))
          (λ new_price.
            Keeps-bind (Keeps-reads (λ (w : World F). current_price w.states.ctokens token))
              (λ old_price.
                Keeps-if (eqb_ℤ old_price (pos 0)) (record { at = λ w. refl })
                  (all-on_price token (modify (Price.update (pos new_price) now))))))

  all-signal_users :
      (out : Outside F) (now : ℤ) (sig : Signal) (users : List String)
      → KeepsAll (signal_users out now sig users)
  unfolding signal_users
  all-signal_users out now sig [] = Keeps-pure tt
  all-signal_users out now sig (usr ∷ users) =
      Keeps-bind
        (all-liquidate out now (take 20 (usr ∷ users)) (some sig.gas_price) (some sig.raw_tx))
        (λ _. all-leave_pending (drop 20 (usr ∷ users)))

  all-on_signal :
      (out : Outside F) (now : ℤ) (raw_of : Message → Result String) (message : Message)
      (parsed : List (String × ℕ × ℕ) × String)
      → KeepsAll (on_signal out now raw_of message parsed)
  unfolding on_signal
  all-on_signal out now raw_of message (res, aggr) =
      Keeps-bind (Keeps-lift (raw_of message)) (λ raw.
        Keeps-bind (Keeps-lift (fees message)) (λ fee.
          Keeps-bind (Keeps-reads (λ (w : World F). ok w.block_infos.block_num)) (λ height.
            let sig : Signal = record {
              hash = message.hash;
              recv_height = height;
              tx_type = message.tx_type;
              gas_price = fee.0;
              priority_fee = fee.1;
              raw_tx = raw;
            } in
            Keeps-bind (all-set_signal sig) (λ _.
              Keeps-bind (Keeps-each (all-take_price now) res) (λ _.
                Keeps-bind
                  (Keeps-reads (λ (w : World F). ok (get_or (lookup aggr w.users_pre_filtered) [])))
                  (λ users. all-signal_users out now sig users))))))

  all-parse_signal : (message : Message) → KeepsAll {F = F} (parse_signal message)
  unfolding parse_signal
  all-parse_signal message =
      Keeps-bind
        (Keeps-reads (λ (w : World F). ok (Floats.of_int fl (BlockInfos.gas_price w.block_infos))))
        (λ gas_price.
          Keeps-bind (all-on_signals (tx_filter_and_parsing message.attributes gas_price))
            (λ parsed. Keeps-reads (λ (w : World F). no_name w.signals parsed.0 parsed.1)))

  all-on_parse :
      (out : Outside F) (now : ℤ) (raw_of : Message → Result String) (message : Message)
      (r : Result (List (String × ℕ × ℕ) × String))
      → KeepsAll (on_parse out now raw_of message r)
  unfolding on_parse
  all-on_parse out now raw_of message (err e) = Keeps-pure tt
  all-on_parse out now raw_of message (ok parsed) = all-on_signal out now raw_of message parsed

  pub all-pt :
      (out : Outside F) (now : ℤ) (raw_of : Message → Result String) (message : Message)
      → KeepsAll (pt out now raw_of message)
  unfolding pt
  all-pt out now raw_of message = record {
    at = λ w.
        Keeps.at (all-on_parse out now raw_of message (parse_signal message w).0)
          (parse_signal message w).1
        ∙ Keeps.at (all-parse_signal message) w;
  }
