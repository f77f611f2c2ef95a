-- ===== src/Bot/Series.antt =====
-- The tasks of main in compound.py, as a series of the callbacks in the order in which the event loop
-- runs them. A callback that raises leaves what it wrote, and the tasks go on.
use compound_liquidation.Prelude.{String, Option, List, [], ◌∷◌, Result}
use compound_liquidation.Prelude.Int.{ℤ}
use compound_liquidation.Prelude.Float.{Floats}
use compound_liquidation.Chain.Light.{LogReceiptLight}
use compound_liquidation.Bot.{World, Outside}
use compound_liquidation.Bot.Logs.{users_subscribe_callback}
use compound_liquidation.Bot.Feeds.{
  Header, comet_subscribe_callback, signals_subscribe_callback, on_message,
}
use compound_liquidation.Bot.Rounds.{Message, pt, liquidation_idle_callback}

-- what a task receives, and the time
pub data Event : Type 0 where
  user_logs : (now : ℤ) → LogReceiptLight → Event
  comet_logs : LogReceiptLight → Event
  price_logs : LogReceiptLight → Event
  header : (now : ℤ) → Option Header → Event
  pending : (now : ℤ) → Message → Event
  idle : (now prev_block : ℤ) → Event

module _ {F : Type 0} ⦃fl : Floats F⦄ (out : Outside F) (raw_of : Message → Result String) where
  unfoldable pub step : Event → World F → World F
  step (user_logs now response) w = (users_subscribe_callback out now response w).1
  step (comet_logs response) w = (comet_subscribe_callback out response w).1
  step (price_logs response) w = (signals_subscribe_callback out response w).1
  step (header now h) w = (on_message out now h w).1
  step (pending now message) w = (pt out now raw_of message w).1
  step (idle now prev_block) w = (liquidation_idle_callback out now prev_block w).1

  unfoldable pub run : List Event → World F → World F
  unfolding step
  run [] w = w
  run (e ∷ es) w = run es (step e w)
