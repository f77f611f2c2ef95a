-- ===== src/Bot/Nearby/Idle.antt =====
-- About the users of the states and the lists of users near liquidation, in the logs of the comptroller
-- and the idle rounds of compound.py.
use mathlib.Core.Path.{subst}
use compound_liquidation.Prelude.{
  ℕ, String, Dict, none, List, [], ◌∷◌, keys, ok, ok_injective, ◌≡◌, refl, sym, ◌==◌, ◌%◌, ◌/◌,
  true, false,
}
use compound_liquidation.Prelude.Int.{ℤ, pos, ◌+ℤ◌, leb_ℤ, pos_part, ltb_ℤ}
use compound_liquidation.Prelude.Float.{Floats}
use compound_liquidation.Prelude.Exec.{Exec, modify, ◌>>=◌}
use compound_liquidation.Prelude.Keeps.{
  Keeps, Keeps-bind, Keeps-pure, Keeps-lift, Keeps-reads, Keeps-if, Keeps-each, Keeps-map,
}
use compound_liquidation.Prelude.Preserves.{
  Preserves, Preserves-bind, Preserves-pure, Preserves-reads, Preserves-if, Preserves-found,
}
use compound_liquidation.Prelude.Distinct.{IsDistinct}
use compound_liquidation.Config.{intvl}
use compound_liquidation.Comet.{CometConfigs}
use compound_liquidation.Chain.{LogReceipt}
use compound_liquidation.Chain.Light.{LogReceiptLight, converter}
use compound_liquidation.Users.Queries.{users_filtering, get_users_sampling}
use compound_liquidation.Users.Once.{HasOnce}
use compound_liquidation.Health.{HealthResult, write_health_factor}
use compound_liquidation.Signals.{get_tokens_from_aggr_index}
use compound_liquidation.Bot.{World, Outside, on_states, on_comet, health_of, users_trimming_wrap}
use compound_liquidation.Bot.Feeds.{update_comet, comet_subscribe_callback}
use compound_liquidation.Bot.Rounds.{
  set_pre_filtered, sample_users, filter_users, update_periodically, take_pending, take_continue,
  liquidation_idle_callback, fresh_gas_price, front, popped,
}
use compound_liquidation.Bot.Blocks.Parts.{blocks-write}
use compound_liquidation.Bot.Blocks.Kept.{KeepsAll}
use compound_liquidation.Bot.Blocks.Rounds.{all-liquidate}
use compound_liquidation.Bot.Nearby.Once.{AllOnce, insert-AllOnce}
use compound_liquidation.Bot.Nearby.Trimmed.{users_filtering-IsDistinct, users_trimming-IsDistinct}

module _ {F : Type 0} where
  -- the states hold no user twice, and no list of users near liquidation does
  abbrev pub IsReached : World F → Type 0
  IsReached w = HasOnce w.states × AllOnce w.users_pre_filtered

  -- what the property is about
  abbrev pub listed_of : World F → List String × Dict (List String)
  listed_of w = (keys w.states.users_states, w.users_pre_filtered)

  pub listed-IsReached :
      {A : Type 0} {m : Exec (World F) A} → Keeps listed_of m → Preserves IsReached m
  listed-IsReached h = record {
    at = λ w p. subst (λ x. IsDistinct x.0 × AllOnce x.1) (sym (Keeps.at h w)) p;
  }

  pub kept-IsReached : {A : Type 0} {m : Exec (World F) A} → KeepsAll m → Preserves IsReached m
  kept-IsReached h = listed-IsReached (Keeps-map (λ x. (x.0.1, x.1)) h)

  pub write-IsReached :
      (results : List (HealthResult F))
      → Preserves IsReached (on_states (write_health_factor results))
  write-IsReached results =
      listed-IsReached
        (record { at = λ w i. ((Keeps.at (blocks-write results) w i).1, w.users_pre_filtered) })

  listed-update_comet :
      (out : Outside F) (log : LogReceipt) → Keeps listed_of (update_comet out log)
  listed-update_comet out log = record { at = λ w. refl }

  listed-on_comet : {A : Type 0} (m : Exec CometConfigs A) → Keeps listed_of (on_comet m)
  listed-on_comet m = record { at = λ w. refl }

  pub listed-comet_logs :
      (out : Outside F) (response : LogReceiptLight)
      → Keeps listed_of (comet_subscribe_callback out response)
  unfolding comet_subscribe_callback
  listed-comet_logs out response =
      Keeps-bind (Keeps-lift (converter (Outside.eth out) response)) (λ logs.
        Keeps-bind
          (Keeps-reads (λ (w : World F).
            ok (ltb_ℤ (LogReceiptLight.block_number response) w.comet.last_update)))
          (λ old. Keeps-if old (Keeps-pure tt) (
            Keeps-bind (Keeps-each (listed-update_comet out) logs) (λ _.
              listed-on_comet
                (modify λ c. record c { last_update = LogReceiptLight.block_number response })))))

module _ {F : Type 0} ⦃fl : Floats F⦄ where
  -- the end of filter_users
  abbrev trim_into : (now : ℤ) (aggr : String) (users : List String) → Exec (World F) (Unit {0})
  trim_into now aggr users =
      (λ v. (users_trimming_wrap users (now +ℤ pos 1200) true v, v)) >>= set_pre_filtered aggr

  trimmed :
      (t : ℤ) (users trim : List String) (w : World F)
      → users_trimming_wrap users t true w ≡ ok trim
      → IsDistinct users
      → IsDistinct trim
  unfolding users_trimming_wrap
  trimmed t users trim w e d = users_trimming-IsDistinct users w.states t true trim e d

  trim_into-IsReached :
      (now : ℤ) (aggr : String) (users : List String)
      → IsDistinct users
      → Preserves IsReached (trim_into now aggr users)
  trim_into-IsReached now aggr users distinct =
      Preserves-found (users_trimming_wrap users (now +ℤ pos 1200) true) (set_pre_filtered aggr)
        (λ v trim e q. (
          q.0,
          insert-AllOnce aggr trim v.users_pre_filtered
              (trimmed (now +ℤ pos 1200) users trim v e distinct) q.1,
        ))

  -- the users of the tokens, trimmed into the list of the aggregator
  abbrev pub filter_into :
      (now : ℤ) (tokens : List String) (aggr : String) → Exec (World F) (Unit {0})
  filter_into now tokens aggr =
      (λ v. (ok (users_filtering v.states tokens), v)) >>= trim_into now aggr

  pub filter_into-IsReached :
      (now : ℤ) (tokens : List String) (aggr : String)
      → Preserves (IsReached {F = F}) (filter_into now tokens aggr)
  filter_into-IsReached now tokens aggr =
      Preserves-found (λ (v : World F). ok (users_filtering v.states tokens)) (trim_into now aggr)
        (λ v users e q.
          Preserves.at
            (trim_into-IsReached now aggr users (
              subst IsDistinct (ok_injective _ users e)
                (users_filtering-IsDistinct v.states tokens q.0)))
            v q)

  filter_users-IsReached :
      (now : ℤ) (index : ℕ) → Preserves (IsReached {F = F}) (filter_users now index)
  unfolding filter_users
  filter_users-IsReached now index =
      Preserves-bind (Preserves-reads (λ (w : World F). get_tokens_from_aggr_index w.signals index))
        (λ found. filter_into-IsReached now found.0 found.1)

  sample_users-IsReached :
      (now : ℤ) (index : ℕ) → Preserves (IsReached {F = F}) (sample_users now index)
  unfolding sample_users
  sample_users-IsReached now index =
      Preserves-bind (Preserves-reads (λ (w : World F). get_users_sampling w.states index 10))
        (λ users.
          Preserves-bind (Preserves-reads (users_trimming_wrap users now false)) (λ users_trim.
            Preserves-bind (Preserves-reads (health_of now users_trim))
              (λ results. write-IsReached results)))

  update_periodically-IsReached :
      (now block_num prev_block : ℤ)
      → Preserves (IsReached {F = F}) (update_periodically now block_num prev_block)
  unfolding update_periodically
  update_periodically-IsReached now block_num prev_block =
      let index = pos_part block_num in
      Preserves-if (leb_ℤ block_num prev_block) (Preserves-pure prev_block) (
        Preserves-if (index % (60 / intvl) == 1)
          (Preserves-bind (sample_users-IsReached now index) (λ _. Preserves-pure block_num))
          (Preserves-if (index % (60 / intvl) == 3)
            (Preserves-bind (filter_users-IsReached now index) (λ _. Preserves-pure block_num))
            (Preserves-pure block_num)))

  take_pending-IsReached :
      (out : Outside F) (now block_num prev_block : ℤ) (users : List String)
      → Preserves IsReached (take_pending out now block_num prev_block users)
  unfolding take_pending
  take_pending-IsReached out now block_num prev_block [] =
      update_periodically-IsReached now block_num prev_block
  take_pending-IsReached out now block_num prev_block (usr ∷ users) =
      Preserves-bind
        (Preserves-reads (λ (w : World F). ok (fresh_gas_price block_num w.signal_recv)))
        (λ gas.
          Preserves-bind (kept-IsReached (all-liquidate out now (usr ∷ users) gas none))
            (λ _. Preserves-pure prev_block))

  take_continue-IsReached :
      (out : Outside F) (now block_num prev_block : ℤ) (users : List String)
      → Preserves IsReached (take_continue out now block_num prev_block users)
  unfolding take_continue
  take_continue-IsReached out now block_num prev_block [] = record {
    at = λ w p.
        Preserves.at (take_pending-IsReached out now block_num prev_block (front w.users_pending))
          (record w { users_pending = popped w.users_pending }) p;
  }
  take_continue-IsReached out now block_num prev_block (usr ∷ users) =
      Preserves-bind (kept-IsReached (all-liquidate out now (usr ∷ users) none none))
        (λ _. Preserves-pure prev_block)

  pub idle-IsReached :
      (out : Outside F) (now prev_block : ℤ)
      → Preserves IsReached (liquidation_idle_callback out now prev_block)
  unfolding liquidation_idle_callback
  idle-IsReached out now prev_block = record {
    at = λ w p.
        Preserves.at
          (take_continue-IsReached out now w.block_infos.block_num prev_block
            (front w.users_continue))
          (record w { users_continue = popped w.users_continue }) p;
  }
