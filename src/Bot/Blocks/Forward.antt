-- ===== src/Bot/Blocks/Forward.antt =====
-- About the blocks of the last updates through any series of callbacks.
use compound_liquidation.Prelude.{String, List, [], ◌∷◌, arith, Result}
use compound_liquidation.Prelude.Float.{Floats}
use compound_liquidation.Bot.{World, Outside}
use compound_liquidation.Bot.Rounds.{Message}
use compound_liquidation.Bot.Series.{
  Event, user_logs, comet_logs, price_logs, header, pending, idle, step, run,
}
use compound_liquidation.Bot.Blocks.Updates.{
  IsLater, IsLater-keeps, IsLater-user_logs, IsLater-comet_logs,
}
use compound_liquidation.Prelude.Keeps.{Keeps-map}
use compound_liquidation.Bot.Blocks.Kept.{all-price_logs, all-on_message}
use compound_liquidation.Bot.Blocks.Rounds.{all-pt, blocks-idle}

module _ {F : Type 0} ⦃fl : Floats F⦄ (out : Outside F) (raw_of : Message → Result String) where
  step-IsLater : (e : Event) (w : World F) → IsLater w (step out raw_of e w)
  unfolding step
  step-IsLater (user_logs now response) w = IsLater-user_logs out now response w
  step-IsLater (comet_logs response) w = IsLater-comet_logs out response w
  step-IsLater (price_logs response) w =
      IsLater-keeps w (Keeps-map (λ p. p.0) (all-price_logs out response))
  step-IsLater (header now h) w = IsLater-keeps w (Keeps-map (λ p. p.0) (all-on_message out now h))
  step-IsLater (pending now message) w =
      IsLater-keeps w (Keeps-map (λ p. p.0) (all-pt out now raw_of message))
  step-IsLater (idle now prev_block) w = IsLater-keeps w (blocks-idle out now prev_block)

  -- A series of callbacks (logs of users, of the comptroller and of prices, heads, pending
  -- transactions and idle rounds), each of which returns or raises, never lowers the block of the
  -- last update of the states or of the comptroller's parameters.
  pub run-IsLater : (es : List Event) (w : World F) → IsLater w (run out raw_of es w)
  unfolding run
  run-IsLater [] w = omega arith
  run-IsLater (e ∷ es) w = omega (arith, step-IsLater e w, run-IsLater es (step out raw_of e w))
