-- ===== src/Bot/Rounds/Queue.antt =====
-- About the users that wait in users_pending, and the idle rounds that take them.
use compound_liquidation.Prelude.{
  String, ◌≡◌, ap, sym, none, List, [], ◌∷◌, ◌++◌, ok, length, arith,
}
use mathlib.Core.Path.{subst}
use compound_liquidation.Prelude.Int.{ℤ}
use compound_liquidation.Prelude.Float.{Floats}
use compound_liquidation.Prelude.Exec.{pure, Returns, bind-Returns}
use compound_liquidation.Prelude.Keeps.{Keeps}
use compound_liquidation.Bot.{World, Outside}
use compound_liquidation.Bot.Rounds.{
  front, popped, fresh_gas_price, liquidate, take_pending, take_continue, liquidation_idle_callback,
}
use compound_liquidation.Bot.Rounds.Kept.{watched-take_pending}
use compound_liquidation.Bot.Rounds.Fresh.{AllFresh, liquidate-fresh}

module _ {F : Type 0} ⦃fl : Floats F⦄ (out : Outside F) where
  -- one idle round, which may raise
  abbrev pub idle_step : ℤ × ℤ → World F → World F
  idle_step (now, prev_block) w = (liquidation_idle_callback out now prev_block w).1

  -- the rounds one after another, each with its time and its previous block
  abbrev pub idle_rounds : List (ℤ × ℤ) → World F → World F
  idle_rounds [] w = w
  idle_rounds (t ∷ ts) w = idle_rounds ts (idle_step t w)

  -- the queues: the first one is never written to
  abbrev pub IsWaiting : List (List String) → World F → Type 0
  IsWaiting queue w = (w.users_continue ≡ []) × (w.users_pending ≡ queue)

  abbrev taken : List (List String) → World F → World F
  taken queue w = record w { users_continue = []; users_pending = queue }

  -- a round on waiting users is the one on the first of them
  idle-take_pending :
      (now prev_block : ℤ) (users : List String) (queue : List (List String)) (w : World F)
      → IsWaiting (users ∷ queue) w
      → liquidation_idle_callback out now prev_block w
        ≡ take_pending out now w.block_infos.block_num prev_block users (taken queue w)
  unfolding liquidation_idle_callback take_continue
  idle-take_pending now prev_block users queue w (e, e') i =
      take_continue out now w.block_infos.block_num prev_block (front (e i))
        (record w { users_continue = popped (e i); users_pending = e' i })

  idle-pops :
      (t : ℤ × ℤ) (users : List String) (queue : List (List String)) (w : World F)
      → IsWaiting (users ∷ queue) w
      → IsWaiting queue (idle_step t w)
  idle-pops (now, prev_block) users queue w h =
      let kept =
        Keeps.at (watched-take_pending out now w.block_infos.block_num prev_block users)
          (taken queue w) in
      subst (λ r. IsWaiting queue r.1) (sym (idle-take_pending now prev_block users queue w h))
        (ap (λ p. p.1) kept, ap (λ p. p.2) kept)

  idle-fresh :
      (now prev_block : ℤ) (usr : String) (users : List String) (queue : List (List String))
      (w : World F)
      → IsWaiting ((usr ∷ users) ∷ queue) w
      → Returns (AllFresh now (usr ∷ users)) (liquidation_idle_callback out now prev_block) w
  unfolding take_pending
  idle-fresh now prev_block usr users queue w h =
      let b = w.block_infos.block_num in
      let v = taken queue w in
      let gas = fresh_gas_price b w.signal_recv in
      subst (λ r. (a : ℤ) → r.0 ≡ ok a → AllFresh now (usr ∷ users) r.1)
        (sym (idle-take_pending now prev_block (usr ∷ users) queue w h))
        (bind-Returns (AllFresh now (usr ∷ users)) (liquidate out now (usr ∷ users) gas none)
          (λ _. pure prev_block) v
          (λ _ returned _ _. liquidate-fresh out now (usr ∷ users) gas none v _ returned))

  rounds-pop :
      (ts : List (ℤ × ℤ)) (before after : List (List String)) (w : World F)
      → length ts ≡ length before
      → IsWaiting (before ++ after) w
      → IsWaiting after (idle_rounds ts w)
  rounds-pop [] [] after w n h = h
  rounds-pop [] (users ∷ before) after w n h = absurd (omega arith)
  rounds-pop (t ∷ ts) [] after w n h = absurd (omega arith)
  rounds-pop (t ∷ ts) (users ∷ before) after w n h =
      rounds-pop ts before after (idle_step t w) (omega arith)
        (idle-pops t users (before ++ after) w h)

  -- Where users_continue is empty and a batch of users waits behind n others in users_pending,
  -- then after n idle rounds, each of which returns or raises, the next round, if it returns, has
  -- taken the batch off the queue and every user of the batch has a health factor of that round's
  -- time.
  pub idle_rounds-fresh :
      (ts : List (ℤ × ℤ)) (before after : List (List String)) (usr : String) (users : List String)
      (now prev_block next_block : ℤ) (w : World F)
      → length ts ≡ length before
      → IsWaiting (before ++ (usr ∷ users) ∷ after) w
      → let v = idle_rounds ts w in
        (liquidation_idle_callback out now prev_block v).0 ≡ ok next_block
        → IsWaiting after (idle_step (now, prev_block) v)
          × AllFresh now (usr ∷ users) (idle_step (now, prev_block) v)
  idle_rounds-fresh ts before after usr users now prev_block next_block w n h returned =
      let v = idle_rounds ts w in
      let waiting = rounds-pop ts before ((usr ∷ users) ∷ after) w n h in
      (
        idle-pops (now, prev_block) (usr ∷ users) after v waiting,
        idle-fresh now prev_block usr users after v waiting next_block returned,
      )
