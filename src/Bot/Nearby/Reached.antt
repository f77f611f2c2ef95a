-- ===== src/Bot/Nearby/Reached.antt =====
-- About the lists of users near liquidation and every callback of compound.py: no user stands twice.
use mathlib.Core.Path.{subst}
use compound_liquidation.Prelude.{String, Dict, List, [], ◌∷◌, keys, ok, update_all, sym, Result}
use compound_liquidation.Prelude.Int.{ℤ, ltb_ℤ}
use compound_liquidation.Prelude.Float.{Floats}
use compound_liquidation.Prelude.Exec.{Exec}
use compound_liquidation.Prelude.Keeps.{Keeps, Keeps-each}
use compound_liquidation.Prelude.Preserves.{
  Preserves, Preserves-bind, Preserves-pure, Preserves-lift, Preserves-reads, Preserves-if,
}
use compound_liquidation.Prelude.Distinct.{IsDistinct}
use compound_liquidation.Chain.{Eth, LogReceipt}
use compound_liquidation.Chain.Light.{LogReceiptLight, converter}
use compound_liquidation.Users.Once.{HasOnce}
use compound_liquidation.Users.{States}
use compound_liquidation.Users.HighProfit.{HighProfitSates}
use compound_liquidation.Users.HighProfit.Once.{HighOnce, HighOnce-update}
use compound_liquidation.Bot.{World, Outside, on_high, updates}
use compound_liquidation.Bot.Logs.{take_logs, users_subscribe_callback}
use compound_liquidation.Bot.Rounds.{Message}
use compound_liquidation.Bot.Series.{
  Event, user_logs, comet_logs, price_logs, header, pending, idle, step, run,
}
use compound_liquidation.Bot.Blocks.Parts.{KeepsBlocks, blocks-reload, blocks-sync_plug_in}
use compound_liquidation.Bot.Blocks.Updates.{blocks-recalculate}
use compound_liquidation.Bot.Blocks.Kept.{all-price_logs, all-on_message}
use compound_liquidation.Bot.Blocks.Rounds.{all-pt}
use compound_liquidation.Bot.Nearby.Once.{stamp, users_subscribe_callback-IsOnce}
use compound_liquidation.Bot.Nearby.Idle.{
  IsReached, listed-IsReached, kept-IsReached, listed-comet_logs, idle-IsReached,
}

module _ {F : Type 0} ⦃fl : Floats F⦄ where
  -- the users after the logs of a message
  high-updates :
      (eth : Eth) (users : Dict ℤ) (logs : List LogReceipt)
      → Preserves (HighOnce {F = F}) (updates eth users logs)
  unfolding updates
  high-updates eth users [] = Preserves-pure users
  high-updates eth users (log ∷ logs) =
      Preserves-bind (HighOnce-update eth log)
        (λ temp. high-updates eth (update_all users temp) logs)

  abbrev HasUsersOnce : World F → Type 0
  HasUsersOnce w = HasOnce w.states

  users-high :
      {A : Type 0} {m : Exec (States F × HighProfitSates F) A}
      → Preserves HighOnce m
      → Preserves HasUsersOnce (on_high m)
  users-high h = record { at = λ w p. Preserves.at h (w.states, w.high) p }

  users-kept : {A : Type 0} {m : Exec (World F) A} → KeepsBlocks m → Preserves HasUsersOnce m
  users-kept h = record { at = λ w p. subst (λ x. IsDistinct x.1) (sym (Keeps.at h w)) p }

  users-stamp : (response : LogReceiptLight) → Preserves HasUsersOnce (stamp response)
  users-stamp response = record { at = λ w p. p }

  users-take_logs :
      (out : Outside F) (now : ℤ) (response : LogReceiptLight) (logs : List LogReceipt)
      → Preserves HasUsersOnce (take_logs out now response logs)
  unfolding take_logs
  users-take_logs out now response logs =
      Preserves-bind (users-high (high-updates (Outside.eth out) [] logs)) (λ users.
        Preserves-bind (users-stamp response) (λ _.
          Preserves-bind (users-kept (Keeps-each (blocks-reload out) (keys users))) (λ _.
            Preserves-bind (users-kept (blocks-recalculate now (keys users)))
              (λ _. users-kept (blocks-sync_plug_in out)))))

  pub users-user_logs :
      (out : Outside F) (now : ℤ) (response : LogReceiptLight)
      → Preserves HasUsersOnce (users_subscribe_callback out now response)
  unfolding users_subscribe_callback
  users-user_logs out now response =
      Preserves-bind (Preserves-lift (converter (Outside.eth out) response)) (λ logs.
        Preserves-bind
          (Preserves-reads (λ (w : World F).
            ok (ltb_ℤ (LogReceiptLight.block_number response) w.states.last_update)))
          (λ old. Preserves-if old (Preserves-pure tt) (users-take_logs out now response logs)))

module _ {F : Type 0} ⦃fl : Floats F⦄ (out : Outside F) (raw_of : Message → Result String) where
  step-IsReached : (e : Event) (w : World F) → IsReached w → IsReached (step out raw_of e w)
  unfolding step
  step-IsReached (user_logs now response) w p = (
    Preserves.at (users-user_logs out now response) w p.0,
    users_subscribe_callback-IsOnce out now response w p.1,
  )
  step-IsReached (comet_logs response) w p =
      Preserves.at (listed-IsReached (listed-comet_logs out response)) w p
  step-IsReached (price_logs response) w p =
      Preserves.at (kept-IsReached (all-price_logs out response)) w p
  step-IsReached (header now h) w p = Preserves.at (kept-IsReached (all-on_message out now h)) w p
  step-IsReached (pending now message) w p =
      Preserves.at (kept-IsReached (all-pt out now raw_of message)) w p
  step-IsReached (idle now prev_block) w p = Preserves.at (idle-IsReached out now prev_block) w p

  -- Where the states hold no user twice and no list of users near liquidation does, this holds
  -- after any series of callbacks (logs of users, of the comptroller and of prices, heads, pending
  -- transactions and idle rounds), each of which returns or raises.
  pub run-IsReached :
      (es : List Event) (w : World F) → IsReached w → IsReached (run out raw_of es w)
  unfolding run
  run-IsReached [] w p = p
  run-IsReached (e ∷ es) w p = run-IsReached es (step out raw_of e w) (step-IsReached e w p)
