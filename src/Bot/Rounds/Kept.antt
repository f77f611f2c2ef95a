-- ===== src/Bot/Rounds/Kept.antt =====
-- About the queues and the blocks of the last updates, and what the rounds are made of.
use compound_liquidation.Prelude.{
  ℕ, String, refl, true, false, Option, none, List, [], ◌∷◌, ok, ◌==◌, ◌%◌, ◌/◌,
}
use compound_liquidation.Prelude.Int.{ℤ, pos, ◌+ℤ◌, leb_ℤ, pos_part}
use compound_liquidation.Prelude.Float.{Floats}
use compound_liquidation.Prelude.Exec.{Exec}
use compound_liquidation.Prelude.Keeps.{Keeps, Keeps-bind, Keeps-pure, Keeps-reads, Keeps-if}
use compound_liquidation.Config.{intvl}
use compound_liquidation.Signals.{get_tokens_from_aggr_index}
use compound_liquidation.Users.Queries.{users_filtering, get_users_sampling}
use compound_liquidation.Health.{HealthResult, write_health_factor}
use compound_liquidation.Send.Bnb48.{Bnb48, send_transactions}
use compound_liquidation.Bot.{World, Outside, on_sender, on_states, health_of, users_trimming_wrap}
use compound_liquidation.Bot.Rounds.{
  numbered, simulate, liquidate, sample_users, filter_users, update_periodically, fresh_gas_price,
  take_pending, set_pre_filtered,
}
use compound_liquidation.Bot.Blocks.Parts.{blocks, blocks-write}

module _ {F : Type 0} where
  abbrev pub watched : World F → ((ℤ × ℤ) × List String) × List (List String) × List (List String)
  watched w = (blocks w, w.users_continue, w.users_pending)

  abbrev pub KeepsWatched : {A : Type 0} → Exec (World F) A → Type 0
  KeepsWatched m = Keeps watched m

  watched-on_sender : {A : Type 0} (m : Exec (Bnb48 F) A) → KeepsWatched (on_sender m)
  watched-on_sender m = record { at = λ w. refl }

  watched-write :
      (results : List (HealthResult F)) → KeepsWatched (on_states (write_health_factor results))
  watched-write results = record {
    at = λ w i. (Keeps.at (blocks-write results) w i, w.users_continue, w.users_pending);
  }

  watched-set_pre_filtered :
      (aggr : String) (users : List String) → KeepsWatched (set_pre_filtered aggr users)
  watched-set_pre_filtered aggr users = record { at = λ w. refl }

module _ {F : Type 0} ⦃fl : Floats F⦄ where
  watched-simulate :
      (out : Outside F) (gas : Option ℤ) (results : List (String × HealthResult F))
      → KeepsWatched (simulate out gas results)
  watched-simulate out gas results = record { at = λ w. refl }

  pub watched-liquidate :
      (out : Outside F) (now : ℤ) (users : List String) (gas : Option ℤ) (raw : Option String)
      → KeepsWatched (liquidate out now users gas raw)
  unfolding liquidate
  watched-liquidate out now users gas raw =
      Keeps-bind (Keeps-reads (health_of now users)) (λ results.
        Keeps-bind (watched-simulate out gas (numbered (Outside.unique_id out) 0 results))
          (λ coroutines.
            Keeps-bind (watched-on_sender (send_transactions coroutines raw))
              (λ _. watched-write results)))

  watched-sample_users : (now : ℤ) (index : ℕ) → KeepsWatched {F = F} (sample_users now index)
  unfolding sample_users
  watched-sample_users now index =
      Keeps-bind (Keeps-reads (λ (w : World F). get_users_sampling w.states index 10)) (λ users.
        Keeps-bind (Keeps-reads (users_trimming_wrap users now false)) (λ users_trim.
          Keeps-bind (Keeps-reads (health_of now users_trim)) (λ results. watched-write results)))

  watched-filter_users : (now : ℤ) (index : ℕ) → KeepsWatched {F = F} (filter_users now index)
  unfolding filter_users
  watched-filter_users now index =
      Keeps-bind (Keeps-reads (λ (w : World F). get_tokens_from_aggr_index w.signals index))
        (λ found.
          Keeps-bind (Keeps-reads (λ (w : World F). ok (users_filtering w.states found.0)))
            (λ users.
              Keeps-bind (Keeps-reads (users_trimming_wrap users (now +ℤ pos 1200) true))
                (λ trim. watched-set_pre_filtered found.1 trim)))

  watched-update_periodically :
      (now block_num prev_block : ℤ)
      → KeepsWatched {F = F} (update_periodically now block_num prev_block)
  unfolding update_periodically
  watched-update_periodically now block_num prev_block =
      let index = pos_part block_num in
      Keeps-if (leb_ℤ block_num prev_block) (Keeps-pure prev_block) (
        Keeps-if (index % (60 / intvl) == 1)
          (Keeps-bind (watched-sample_users now index) (λ _. Keeps-pure block_num))
          (Keeps-if (index % (60 / intvl) == 3)
            (Keeps-bind (watched-filter_users now index) (λ _. Keeps-pure block_num))
            (Keeps-pure block_num)))

  pub watched-take_pending :
      (out : Outside F) (now block_num prev_block : ℤ) (users : List String)
      → KeepsWatched (take_pending out now block_num prev_block users)
  unfolding take_pending
  watched-take_pending out now block_num prev_block [] =
      watched-update_periodically now block_num prev_block
  watched-take_pending out now block_num prev_block (usr ∷ users) =
      Keeps-bind (Keeps-reads (λ (w : World F). ok (fresh_gas_price block_num w.signal_recv)))
        (λ gas.
          Keeps-bind (watched-liquidate out now (usr ∷ users) gas none)
            (λ _. Keeps-pure prev_block))
