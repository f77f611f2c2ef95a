-- ===== src/Users/HighProfit/Once.antt =====
-- About the keys of the users and HighProfitSates.update of configs/users.py.
use mathlib.Core.Path.{subst}
use compound_liquidation.Prelude.{
  String, List, Dict, some, [], ◌∷◌, lookup, keys, keys-adjust, refl, sym, ◌∙◌, ◌≡◌, Bool-cases,
  Option-cases, inl, inr,
}
use compound_liquidation.Prelude.Int.{ℤ, pos, eqb_ℤ}
use compound_liquidation.Prelude.Float.{Floats}
use compound_liquidation.Prelude.Exec.{modify}
use compound_liquidation.Prelude.Preserves.{Preserves, Preserves-bind, Preserves-pure}
use compound_liquidation.Prelude.Distinct.{IsDistinct}
use compound_liquidation.Chain.{Eth, LogReceipt}
use compound_liquidation.Users.{States, UserStates}
use compound_liquidation.Users.Once.{once-update}
use compound_liquidation.Users.Handlers
use compound_liquidation.Users.HighProfit.{
  HighProfitSates, Held, shared, apart, merge_user, merge_users, super, note_users, update,
}

module _ {F : Type 0} where
  abbrev pub users_of : States F × HighProfitSates F → List String
  users_of h = keys (States.users_states h.0)

  merge_user-keys :
      (usr : String) (u : UserStates F) (h : States F × HighProfitSates F)
      → users_of (merge_user usr u h) ≡ users_of h
  unfolding merge_user
  merge_user-keys usr u h = elim (Option-cases (lookup usr (HighProfitSates.parent h.1))) [
    | inl e ↦ rw (e, merge_user) refl
    | inr (held, e) ↦ by_held held e
  ]
    where
      by_held :
          (held : Held F)
          → lookup usr (HighProfitSates.parent h.1) ≡ some held
          → users_of (merge_user usr u h) ≡ users_of h
      by_held shared e = rw (e, merge_user) (keys-adjust usr _ (States.users_states h.0))
      by_held (apart slots hf vai_repay) e =
          rw (e, merge_user) (keys-adjust usr _ (States.users_states h.0))

  merge_users-keys :
      (users : Dict ℤ) (h : States F × HighProfitSates F)
      → users_of (merge_users users h).1 ≡ users_of h
  unfolding merge_users
  merge_users-keys [] h = refl
  merge_users-keys ((usr, type) ∷ users) h = elim (Bool-cases (eqb_ℤ type (pos 2))) [
    | inr other ↦ rw other (merge_users-keys users h)
    | inl new ↦ elim (Option-cases (lookup usr (States.users_states h.0))) [
      | inl e ↦ rw (new, e) refl
      | inr (u, e) ↦
          rw (new, e) (merge_users-keys users (merge_user usr u h) ∙ merge_user-keys usr u h)
    ]
  ]

module _ {F : Type 0} ⦃fl : Floats F⦄ where
  abbrev pub HighOnce : States F × HighProfitSates F → Type 0
  HighOnce h = IsDistinct (users_of h)

  once-super : (eth : Eth) (log : LogReceipt) → Preserves HighOnce (super (Handlers.update eth log))
  once-super eth log = record { at = λ s h. Preserves.at (once-update eth log) s.0 h }

  once-merge : (users : Dict ℤ) → Preserves HighOnce (merge_users users)
  once-merge users = record { at = λ s h. subst IsDistinct (sym (merge_users-keys users s)) h }

  once-note : (users : Dict ℤ) → Preserves HighOnce (modify (note_users {F = F} users))
  once-note users = record { at = λ s h. h }

  pub HighOnce-update : (eth : Eth) (log : LogReceipt) → Preserves HighOnce (update eth log)
  unfolding update
  HighOnce-update eth log = Preserves-bind (once-super eth log) (λ users.
      Preserves-bind (once-merge users)
        (λ _. Preserves-bind (once-note users) (λ _. Preserves-pure users)))
