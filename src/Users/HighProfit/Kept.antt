-- ===== src/Users/HighProfit/Kept.antt =====
-- About the block of the last update and HighProfitSates.update of configs/users.py.
use compound_liquidation.Prelude.{
  String, Dict, [], ◌∷◌, lookup, refl, ◌∙◌, ◌≡◌, arith, Bool-cases, Option-cases, inl, inr,
}
use compound_liquidation.Prelude.Int.{ℤ, pos, eqb_ℤ}
use compound_liquidation.Prelude.Float.{Floats}
use compound_liquidation.Prelude.Exec.{Exec, modify}
use compound_liquidation.Prelude.Keeps.{Keeps, Keeps-bind, Keeps-pure}
use compound_liquidation.Chain.{Eth, LogReceipt}
use compound_liquidation.Users.{States, UserStates}
use compound_liquidation.Users.Block.{block-update}
use compound_liquidation.Users.HighProfit.{
  HighProfitSates, merge_user, merge_users, super, note_users, update,
}

module _ {F : Type 0} where
  abbrev pub high_block : States F × HighProfitSates F → ℤ
  high_block h = States.last_update h.0

  merge_user-block :
      (usr : String) (u : UserStates F) (h : States F × HighProfitSates F)
      → high_block (merge_user usr u h) ≡ high_block h
  unfolding merge_user
  merge_user-block usr u h = ground arith

  merge_users-block :
      (users : Dict ℤ) (h : States F × HighProfitSates F)
      → high_block (merge_users users h).1 ≡ high_block h
  unfolding merge_users
  merge_users-block [] h = refl
  merge_users-block ((usr, type) ∷ users) h = elim (Bool-cases (eqb_ℤ type (pos 2))) [
    | inr other ↦ rw other (merge_users-block users h)
    | inl new ↦ elim (Option-cases (lookup usr (States.users_states h.0))) [
      | inl e ↦ rw (new, e) refl
      | inr (u, e) ↦
          rw (new, e) (merge_users-block users (merge_user usr u h) ∙ merge_user-block usr u h)
    ]
  ]

module _ {F : Type 0} ⦃fl : Floats F⦄ where
  block-super :
      {A : Type 0} {m : Exec (States F) A}
      → Keeps (λ (s : States F). s.last_update) m
      → Keeps high_block (super m)
  block-super h = record { at = λ s. Keeps.at h s.0 }

  block-merge_users :
      (users : Dict ℤ) → Keeps {S = States F × HighProfitSates F} high_block (merge_users users)
  block-merge_users users = record { at = merge_users-block users }

  block-note :
      (users : Dict ℤ)
      → Keeps {S = States F × HighProfitSates F} high_block (modify (note_users users))
  block-note users = record { at = λ h. refl }

  pub high_block-update : (eth : Eth) (log : LogReceipt) → Keeps high_block (update {F = F} eth log)
  unfolding update
  high_block-update eth log = Keeps-bind (block-super (block-update eth log)) (λ users.
      Keeps-bind (block-merge_users users)
        (λ _. Keeps-bind (block-note users) (λ _. Keeps-pure users)))
