-- ===== src/Bot/Start/Once.antt =====
-- About the states at the start-up of compound.py: no user stands twice.
use mathlib.Core.Path.{subst}
use compound_liquidation.Prelude.{
  ℕ, String, Dict, List, keys, Option, none, some, lookup, Option-cases, inl, inr, sym, ap,
  keys-adjust, Result,
}
use compound_liquidation.Prelude.Int.{ℤ, pos}
use compound_liquidation.Prelude.Float.{Floats}
use compound_liquidation.Prelude.Exec.{Exec, modify}
use compound_liquidation.Prelude.Keeps.{Keeps}
use compound_liquidation.Prelude.Distinct.{IsDistinct}
use compound_liquidation.Prelude.Preserves.{
  Preserves, Preserves-bind, Preserves-pure, Preserves-lift, Preserves-each,
}
use compound_liquidation.Events.{State, vai_state}
use compound_liquidation.Tokens.{CtokenInfos}
use compound_liquidation.Protocol.{complete_ctokens, query_ctokens_configs}
use compound_liquidation.Users.{States}
use compound_liquidation.Users.Block.{block_of}
use compound_liquidation.Users.Once.{HasOnce, once-update}
use compound_liquidation.Users.Cache.{cache}
use compound_liquidation.Users.Cache.Once.{cache-HasOnce}
use compound_liquidation.Sync.{states_synced, gen_states_filter, user_state_extend_hook}
use compound_liquidation.Sync.Kept.{sync_states-Preserves}
use compound_liquidation.Bot.{Outside}
use compound_liquidation.Bot.Logs.{clear_plug_in}
use compound_liquidation.Bot.Blocks.Parts.{block-reload}
use compound_liquidation.Bot.Start.{
  Node, caught, on_ctokens, init_vai_repay, init_users, init_plug_in, sync_users_states,
  init_states,
}

module _ {F : Type 0} where
  once-kept : {A : Type 0} {m : Exec (States F) A} → Keeps block_of m → Preserves HasOnce m
  once-kept h = record { at = λ s p. subst IsDistinct (sym (ap (λ b. b.1) (Keeps.at h s))) p }

  once-caught :
      {m : Exec (States F) (Unit {0})} → Preserves HasOnce m → Preserves HasOnce (caught m)
  once-caught h = record { at = Preserves.at h }

  once-ctokens : (m : Exec (Dict CtokenInfos) (Unit {0})) → Preserves HasOnce (on_ctokens {F = F} m)
  once-ctokens m = record { at = λ s h. h }

  once-plug_in :
      (plug_in : State ℤ)
      → Preserves HasOnce (modify (λ (s : States F). record s { plug_in = some plug_in }))
  once-plug_in plug_in = record { at = λ s h. h }

  once-cache : Preserves HasOnce (modify (λ (s : States F). (cache s).1))
  once-cache = record { at = cache-HasOnce }

  once-vai_repay : (out : Outside F) (usr : String) → Preserves HasOnce (init_vai_repay out usr)
  unfolding init_vai_repay
  once-vai_repay out usr =
      Preserves-bind (Preserves-lift (Outside.query_user_vai_repay out usr)) (λ vai_repay. record {
        at = λ s h. elim (Option-cases (lookup usr s.users_states)) [
          | inl e ↦ rw e h
          | inr (u, e) ↦ rw e (subst IsDistinct (sym (keys-adjust usr _ s.users_states)) h)
        ];
      })

module _ {F : Type 0} ⦃fl : Floats F⦄ where
  once-clear : Preserves HasOnce (modify (clear_plug_in {F = F}))
  unfolding clear_plug_in
  once-clear = record {
    at = λ s h. elim (Option-cases (States.plug_in s)) [
      | inl e ↦ rw (e, clear_plug_in) h
      | inr (p, e) ↦ rw (e, clear_plug_in) h
    ];
  }

  once-init_users :
      (out : Outside F) (plug_in : Option (State ℤ)) → Preserves HasOnce (init_users out plug_in)
  unfolding init_users
  once-init_users out none = Preserves-pure tt
  once-init_users out (some p) =
      Preserves-bind (Preserves-each (once-vai_repay out) (keys (State.storage p)))
        (λ _. once-clear)

  once-init_plug_in : (out : Outside F) → Preserves HasOnce (init_plug_in out)
  unfolding init_plug_in
  once-init_plug_in out = record {
    at = λ s h. Preserves.at (once-init_users out (States.plug_in s)) s h;
  }

  pub once-hook :
      (out : Outside F) (res : Dict ℤ) (count : ℕ)
      → Preserves HasOnce
          (user_state_extend_hook {F = F} (Outside.get_assets_in out) (Outside.eth out) res count)
  unfolding user_state_extend_hook
  once-hook out res count =
      Preserves-bind
        (Preserves-each
          (λ usr. once-kept (block-reload (Outside.get_assets_in out) (Outside.eth out) usr))
          (keys res))
        (λ _. Preserves-pure count)

  module _ (node : Node F) (out : Outside F) where
    once-sync :
        (reserves : List String) (head : Result ℤ) (delay : ℤ)
        → Preserves HasOnce (sync_users_states node out reserves head delay)
    unfolding sync_users_states
    once-sync reserves head delay = record {
      at = λ s h.
          Preserves.at
            (Preserves-bind (Preserves-lift head) (λ block_number.
              sync_states-Preserves HasOnce
                (states_synced (Outside.eth out)
                  (Node.get_logs node (gen_states_filter (States.plug_in s) reserves))
                  (user_state_extend_hook (Outside.get_assets_in out) (Outside.eth out)))
                (once-update (Outside.eth out)) (λ b v q. q) (once-hook out) block_number delay))
            s h;
    }

    pub once-init_states :
        (reserves : List String) → Preserves HasOnce (init_states node out reserves)
    unfolding init_states
    once-init_states reserves = Preserves-bind (once-plug_in (vai_state (Node.vai node))) (λ _.
        Preserves-bind (once-caught (once-sync reserves (Node.first_head node) (pos 100))) (λ _.
          Preserves-bind (once-init_plug_in out) (λ _. Preserves-bind once-cache (λ _.
            Preserves-bind (once-sync reserves (Node.second_head node) (pos 0)) (λ _. once-ctokens (
              complete_ctokens (query_ctokens_configs (Node.contracts node)) (Node.risk_calls node)
                (Node.get_underlying_price node) (Node.price_time node) reserves))))))
