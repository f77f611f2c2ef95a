-- ===== src/Bot/Nearby/Once.antt =====
-- About the lists of users near liquidation: no user stands twice in one, through
-- users_subscribe_callback of compound.py.
use mathlib.Core.Path.{subst}
use compound_liquidation.Prelude.{
  ok_injective, ℕ, zero, suc, String, Dict, List, [], ◌∷◌, Option, none, some, lookup, insert, keys,
  at_key, ok, ◌≡◌, false, true, All, str_eq, Bool-cases, inl, inr,
}
use compound_liquidation.Prelude.Int.{ℤ, pos, ◌+ℤ◌, ltb_ℤ}
use compound_liquidation.Prelude.Float.{Floats}
use compound_liquidation.Prelude.Exec.{Exec, pure, modify}
use compound_liquidation.Prelude.Distinct.{IsDistinct, ne-flip}
use compound_liquidation.Prelude.Preserves.{
  Preserves, Preserves-reads, Preserves-if, Preserves-bind, Preserves-found, Preserves-each,
}
use compound_liquidation.Chain.{LogReceipt}
use compound_liquidation.Chain.Light.{LogReceiptLight, converter}
use compound_liquidation.Events.{State}
use compound_liquidation.Users.{States, UserStates}
use compound_liquidation.Users.HighProfit.{HighProfitSates}
use compound_liquidation.Health.{write_health_factor}
use compound_liquidation.Health.Trimming.{value_of}
use compound_liquidation.Bot.{
  World, Outside, on_states, on_high, updates, health_of, users_trimming_wrap,
}
use compound_liquidation.Bot.Logs.{
  insert_at, is_listed, place_of, add_listed, add_for, add_to, add_user, recalculate, set_vai_repay,
  sync_users, sync_plug_in, reload_user, take_logs, users_subscribe_callback,
}

unlisted :
    (usr : String) (users : List String)
    → is_listed usr users ≡ false
    → All (λ u. str_eq u usr ≡ false) users
unfolding is_listed
unlisted usr [] h = tt
unlisted usr (u ∷ users) h = elim (Bool-cases (str_eq u usr)) [
  | inl e ↦ let listed = rw (e, is_listed) at h in cc
  | inr e ↦ (e, unlisted usr users (rw (e, is_listed) at h))
]

insert-absent :
    (k : ℕ) (usr v : String) (users : List String)
    → str_eq usr v ≡ false
    → All (λ u. str_eq u v ≡ false) users
    → All (λ u. str_eq u v ≡ false) (insert_at k usr users)
unfolding insert_at
insert-absent zero usr v users e h = (e, h)
insert-absent (suc k) usr v [] e h = (e, h)
insert-absent (suc k) usr v (u ∷ users) e h = (h.0, insert-absent k usr v users e h.1)

insert_at-IsDistinct :
    (k : ℕ) (usr : String) (users : List String)
    → All (λ u. str_eq u usr ≡ false) users
    → IsDistinct users
    → IsDistinct (insert_at k usr users)
unfolding insert_at
insert_at-IsDistinct zero usr users h d = (h, d)
insert_at-IsDistinct (suc k) usr [] h d = (tt, tt)
insert_at-IsDistinct (suc k) usr (u ∷ users) h d =
    (insert-absent k usr u users (ne-flip u usr h.0) d.0, insert_at-IsDistinct k usr users h.1 d.1)

-- every list of a dict
abbrev pub AllOnce : Dict (List String) → Type 0
AllOnce d = All (λ e. IsDistinct e.1) d

pub insert-AllOnce :
    (k : String) (users : List String) (d : Dict (List String))
    → IsDistinct users
    → AllOnce d
    → AllOnce (insert k users d)
insert-AllOnce k users [] h hs = (h, tt)
insert-AllOnce k users ((j, us) ∷ d) h hs = elim (Bool-cases (str_eq j k)) [
  | inl e ↦ rw (e, insert) (h, hs.1)
  | inr e ↦ rw (e, insert) (hs.0, insert-AllOnce k users d h hs.1)
]

lookup-AllOnce :
    (k : String) (users : List String) (d : Dict (List String))
    → at_key k d ≡ ok users
    → AllOnce d
    → IsDistinct users
lookup-AllOnce k users [] e hs = cc
lookup-AllOnce k users ((j, us) ∷ d) e hs = elim (Bool-cases (str_eq j k)) [
  | inl same ↦ subst IsDistinct (ok_injective us users (rw same at e)) hs.0
  | inr other ↦ lookup-AllOnce k users d (rw other at e) hs.1
]

module _ {F : Type 0} ⦃fl : Floats F⦄ where
  abbrev pub IsOnce : World F → Type 0
  IsOnce w = AllOnce w.users_pre_filtered

  abbrev pub stamp : LogReceiptLight → Exec (World F) (Unit {0})
  stamp response = on_states (
      modify λ s. record s {
        last_update = LogReceiptLight.block_number response;
        block_hash = LogReceiptLight.block_hash response;
      })

  abbrev KeepsOnce : {A : Type 0} → Exec (World F) A → Type 0
  KeepsOnce m = Preserves IsOnce m

  once-on_states : {A : Type 0} (m : Exec (States F) A) → KeepsOnce (on_states m)
  once-on_states m = record { at = λ w h. h }

  once-on_high : {A : Type 0} (m : Exec (States F × HighProfitSates F) A) → KeepsOnce (on_high m)
  once-on_high m = record { at = λ w h. h }

  once-add_listed :
      (usr : String) (hf : F) (aggr : String) (users : List String)
      → IsDistinct users
      → KeepsOnce (add_listed usr hf aggr users)
  unfolding add_listed
  once-add_listed usr hf aggr users distinct = elim (Bool-cases (is_listed usr users)) [
    | inl e ↦ rw e (record { at = λ w h. h })
    | inr e ↦ rw e (
        Preserves-bind (Preserves-reads (λ (w : World F). place_of w.states hf 0 users)) (λ index.
          record {
            at = λ w h.
                insert-AllOnce aggr (insert_at index usr users) w.users_pre_filtered
                  (insert_at-IsDistinct index usr users (unlisted usr users e) distinct) h;
          }))
  ]

  once-add_for : (usr : String) (hf : F) (aggr : Option String) → KeepsOnce (add_for usr hf aggr)
  unfolding add_for
  once-add_for usr hf none = record { at = λ w h. h }
  once-add_for usr hf (some aggr) =
      Preserves-found (λ w. at_key aggr w.users_pre_filtered) (add_listed usr hf aggr)
        (λ w users e h.
          Preserves.at
            (once-add_listed usr hf aggr users (lookup-AllOnce aggr users w.users_pre_filtered e h))
            w h)

  once-add_to :
      (usr : String) (hf : F) (ctoken_addr : String) → KeepsOnce (add_to usr hf ctoken_addr)
  unfolding add_to
  once-add_to usr hf ctoken_addr =
      Preserves-bind
        (Preserves-reads (λ (w : World F). ok (lookup ctoken_addr w.signals.token_signal_map)))
        (λ aggr. once-add_for usr hf aggr)

  once-add_user : (usr : String) → KeepsOnce (add_user {F = F} usr)
  unfolding add_user
  once-add_user usr =
      Preserves-bind (Preserves-reads (λ (w : World F). value_of w.states usr)) (λ hf.
        Preserves-bind (Preserves-reads (λ (w : World F). at_key usr w.states.users_states))
          (λ u. Preserves-each (once-add_to usr hf) (keys (UserStates.reserves u))))

  once-recalculate : (now : ℤ) (users : List String) → KeepsOnce (recalculate {F = F} now users)
  unfolding recalculate
  once-recalculate now users = Preserves-bind (Preserves-reads (health_of now users)) (λ results.
      Preserves-bind (Preserves-reads (users_trimming_wrap users (now +ℤ pos 86400) false))
        (λ target. Preserves-bind (once-on_states (write_health_factor results)) (λ _.
          Preserves-bind (Preserves-reads (users_trimming_wrap target (now +ℤ pos 86400) true))
            (λ near. Preserves-each once-add_user near))))

  once-set_vai_repay : (out : Outside F) (usr : String) → KeepsOnce (set_vai_repay out usr)
  unfolding set_vai_repay
  once-set_vai_repay out usr =
      Preserves-bind (Preserves-reads (λ _. Outside.query_user_vai_repay out usr))
        (λ vai_repay. record { at = λ w h. h })

  once-sync_users :
      (out : Outside F) (plug_in : Option (State ℤ)) → KeepsOnce (sync_users out plug_in)
  unfolding sync_users
  once-sync_users out none = record { at = λ w h. h }
  once-sync_users out (some p) =
      Preserves-bind (Preserves-each (once-set_vai_repay out) (keys (State.storage p)))
        (λ _. record { at = λ w h. h })

  once-sync_plug_in : (out : Outside F) → KeepsOnce (sync_plug_in out)
  unfolding sync_plug_in
  once-sync_plug_in out =
      Preserves-bind (Preserves-reads (λ (w : World F). ok (States.plug_in w.states)))
        (λ plug_in. once-sync_users out plug_in)

  once-reload_user : (out : Outside F) (usr : String) → KeepsOnce (reload_user {F = F} out usr)
  once-reload_user out usr = record { at = λ w h. h }

  once-stamp : (response : LogReceiptLight) → KeepsOnce (stamp response)
  once-stamp response = record { at = λ w h. h }

  once-take_logs :
      (out : Outside F) (now : ℤ) (response : LogReceiptLight) (logs : List LogReceipt)
      → KeepsOnce (take_logs out now response logs)
  unfolding take_logs
  once-take_logs out now response logs =
      Preserves-bind (once-on_high (updates (Outside.eth out) [] logs)) (λ users.
        Preserves-bind (once-stamp response) (λ _.
          Preserves-bind (Preserves-each (once-reload_user out) (keys users))
            (λ _. Preserves-bind (once-recalculate now (keys users)) (λ _. once-sync_plug_in out))))

  -- Where no user stands twice in a list of users near liquidation, none does after
  -- users_subscribe_callback, whether it returns or raises, and whatever users it adds to the
  -- lists.
  pub users_subscribe_callback-IsOnce :
      (out : Outside F) (now : ℤ) (response : LogReceiptLight) (w : World F)
      → IsOnce w
      → IsOnce (users_subscribe_callback out now response w).1
  unfolding users_subscribe_callback
  users_subscribe_callback-IsOnce out now response w h =
      Preserves.at
        (Preserves-bind (Preserves-reads (λ _. converter (Outside.eth out) response)) (λ logs.
          Preserves-bind
            (Preserves-reads (λ (v : World F).
              ok (ltb_ℤ (LogReceiptLight.block_number response) v.states.last_update)))
            (λ old.
              Preserves-if old {m = pure tt} (record { at = λ v k. k })
                (once-take_logs out now response logs))))
        w h
