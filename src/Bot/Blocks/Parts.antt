-- ===== src/Bot/Blocks/Parts.antt =====
-- About the two blocks of the last updates and what the callbacks are made of.
use compound_liquidation.Prelude.{
  String, refl, Option, none, some, List, [], ◌∷◌, keys, keys-adjust, ◌∙◌, lookup, arith, adjust,
  inl, inr, Option-cases, ◌≡◌, ok, at_key,
}
use compound_liquidation.Prelude.Int.{ℤ}
use compound_liquidation.Prelude.Float.{Floats}
use compound_liquidation.Prelude.Exec.{Exec, modify}
use compound_liquidation.Prelude.Keeps.{
  Keeps, Keeps-bind, Keeps-pure, Keeps-lift, Keeps-reads, Keeps-if, Keeps-each,
}
use compound_liquidation.Chain.{Eth}
use compound_liquidation.Events.{State}
use compound_liquidation.Price.{CtokenPrice}
use compound_liquidation.Users.{States, UserStates}
use compound_liquidation.Users.Block.{block_of}
use compound_liquidation.Health.{HealthResult, set_health, write_health_factor}
use compound_liquidation.Health.Trimming.{value_of}
use compound_liquidation.Sync.{reload_and_extend_states, set_markets}
use compound_liquidation.Bot.{World, Outside, on_states}
use compound_liquidation.Bot.Logs.{
  add_listed, add_for, add_to, add_user, set_vai_repay, clear_plug_in, sync_users, sync_plug_in,
  reload_user, is_listed, place_of,
}
use compound_liquidation.Bot.Feeds.{on_price}

module _ {F : Type 0} where
  abbrev pub blocks : World F → (ℤ × ℤ) × List String
  blocks w = ((w.states.last_update, w.comet.last_update), keys w.states.users_states)

  abbrev pub KeepsBlocks : {A : Type 0} → Exec (World F) A → Type 0
  KeepsBlocks m = Keeps blocks m

  pub blocks-on_states :
      {A : Type 0} {m : Exec (States F) A} → Keeps block_of m → KeepsBlocks (on_states m)
  blocks-on_states h = record {
    at = λ w i. (((Keeps.at h w.states i).0, w.comet.last_update), (Keeps.at h w.states i).1);
  }

  pub write_health_factor-block :
      (results : List (HealthResult F)) (s : States F)
      → block_of (write_health_factor results s).1 ≡ block_of s
  unfolding write_health_factor
  write_health_factor-block [] s = refl
  write_health_factor-block (result ∷ results) s =
      elim (Option-cases (lookup (HealthResult.usr result) s.users_states)) [
        | inl e ↦ rw (e, write_health_factor) refl
        | inr (u, e) ↦
            let next = record s {
              users_states = adjust result.usr (set_health result.health_factor) s.users_states;
            } in
            let same = keys-adjust result.usr (set_health result.health_factor) s.users_states in
            rw (e, write_health_factor)
              (write_health_factor-block results next ∙ (λ i. (s.last_update, same i)))
      ]

  pub blocks-write :
      (results : List (HealthResult F)) → KeepsBlocks (on_states (write_health_factor results))
  blocks-write results = blocks-on_states (record { at = write_health_factor-block results })

  block-adjust :
      (usr : String) (f : UserStates F → UserStates F)
      → Keeps block_of
          (modify λ (s : States F). record s { users_states = adjust usr f s.users_states })
  block-adjust usr f = record { at = λ s i. (s.last_update, keys-adjust usr f s.users_states i) }

  pub block-reload :
      (get_assets_in : String → List String) (eth : Eth) (usr : String)
      → Keeps block_of (reload_and_extend_states {F = F} get_assets_in eth usr)
  unfolding reload_and_extend_states
  block-reload get_assets_in eth usr = record {
    at = λ s. elim (Option-cases (lookup usr s.users_states)) [
      | inl e ↦ rw (e, reload_and_extend_states) refl
      | inr (u, e) ↦
          rw (e, reload_and_extend_states)
            (λ i. (
              s.last_update,
              keys-adjust usr
                  (λ (v : UserStates F). record v {
                    reserves =
                        set_markets (get_assets_in (Eth.to_checksum_address eth usr)) v.reserves;
                  })
                  s.users_states i,
            ))
    ];
  }

  pub block-on_price :
      (ctoken_addr : String) (m : Exec CtokenPrice (Unit {0}))
      → Keeps block_of (on_price {F = F} ctoken_addr m)
  unfolding on_price
  block-on_price ctoken_addr m = record { at = λ s. ground arith }

  pub blocks-on_price :
      (ctoken_addr : String) (m : Exec CtokenPrice (Unit {0}))
      → KeepsBlocks (on_states (on_price ctoken_addr m))
  blocks-on_price ctoken_addr m = blocks-on_states (block-on_price ctoken_addr m)

module _ {F : Type 0} ⦃fl : Floats F⦄ where
  pub blocks-reload : (out : Outside F) (usr : String) → KeepsBlocks {F = F} (reload_user out usr)
  blocks-reload out usr =
      blocks-on_states (block-reload (Outside.get_assets_in out) (Outside.eth out) usr)

  block-set_vai_repay :
      (out : Outside F) (usr : String) → KeepsBlocks {F = F} (set_vai_repay out usr)
  unfolding set_vai_repay
  block-set_vai_repay out usr =
      Keeps-bind (Keeps-lift (Outside.query_user_vai_repay out usr))
        (λ vai_repay. blocks-on_states (block-adjust usr (λ u. record u { vai_repay = vai_repay })))

  block-clear : (s : States F) → block_of (clear_plug_in s) ≡ block_of s
  unfolding clear_plug_in
  block-clear s = ground arith

  block-sync_users :
      (out : Outside F) (plug_in : Option (State ℤ)) → KeepsBlocks {F = F} (sync_users out plug_in)
  unfolding sync_users
  block-sync_users out none = Keeps-pure tt
  block-sync_users out (some p) =
      Keeps-bind (Keeps-each (block-set_vai_repay out) (keys (State.storage p)))
        (λ _. blocks-on_states (record { at = block-clear }))

  pub blocks-sync_plug_in : (out : Outside F) → KeepsBlocks {F = F} (sync_plug_in out)
  unfolding sync_plug_in
  blocks-sync_plug_in out =
      Keeps-bind (Keeps-reads (λ w. ok (States.plug_in (World.states w))))
        (λ plug_in. block-sync_users out plug_in)

  block-add_listed :
      (usr : String) (hf : F) (aggr : String) (users : List String)
      → KeepsBlocks {F = F} (add_listed usr hf aggr users)
  unfolding add_listed
  block-add_listed usr hf aggr users = Keeps-if (is_listed usr users) (Keeps-pure tt) (
      Keeps-bind (Keeps-reads (λ (w : World F). place_of w.states hf 0 users))
        (λ index. record { at = λ w. refl }))

  block-add_for :
      (usr : String) (hf : F) (aggr : Option String) → KeepsBlocks {F = F} (add_for usr hf aggr)
  unfolding add_for
  block-add_for usr hf none = Keeps-pure tt
  block-add_for usr hf (some aggr) =
      Keeps-bind (Keeps-reads (λ (w : World F). at_key aggr w.users_pre_filtered))
        (λ users. block-add_listed usr hf aggr users)

  block-add_to :
      (usr : String) (hf : F) (ctoken_addr : String)
      → KeepsBlocks {F = F} (add_to usr hf ctoken_addr)
  unfolding add_to
  block-add_to usr hf ctoken_addr =
      Keeps-bind (Keeps-reads (λ (w : World F). ok (lookup ctoken_addr w.signals.token_signal_map)))
        (λ aggr. block-add_for usr hf aggr)

  pub blocks-add_user : (usr : String) → KeepsBlocks {F = F} (add_user usr)
  unfolding add_user
  blocks-add_user usr = Keeps-bind (Keeps-reads (λ (w : World F). value_of w.states usr)) (λ hf.
      Keeps-bind (Keeps-reads (λ (w : World F). at_key usr w.states.users_states))
        (λ u. Keeps-each (block-add_to usr hf) (keys (UserStates.reserves u))))
