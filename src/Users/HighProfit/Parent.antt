-- ===== src/Users/HighProfit/Parent.antt =====
-- About the full states behind HighProfitSates of configs/users.py after write_back_changed_states.
use compound_liquidation.Prelude.{
  String, Option, none, some, Dict, List, [], ◌∷◌, lookup, insert, keys, refl, ap, ◌∙◌, ◌≡◌, arith,
  ok, err, key_error, sym, Bool-cases, Option-cases, inl, inr, str_eq, lookup-insert, if◌then◌else◌,
}
use compound_liquidation.Prelude.Int.{ℤ}
use compound_liquidation.Prelude.Exec.{Returns}
use compound_liquidation.Users.{States, UserStates}
use compound_liquidation.Users.HighProfit.{
  HighProfitSates, Held, shared, resolved, parent_user, set_held, write_back,
  write_back_changed_states,
}

module _ {F : Type 0} where
  abbrev read_in : Option (UserStates F) → Option (Held F) → Option (UserStates F)
  read_in mine none = none
  read_in mine (some h) = resolved mine h

  parent_user-read :
      (own : States F) (high : HighProfitSates F) (usr : String)
      → parent_user (own, high) usr ≡ read_in (lookup usr own.users_states) (lookup usr high.parent)
  parent_user-read own high usr = ground arith

  -- the user of the full states once those of `users` were written back
  abbrev pub written : Dict ℤ → States F × HighProfitSates F → String → Option (UserStates F)
  written users h usr = elim (lookup usr users) [
    | none ↦ parent_user h usr
    | some type ↦ lookup usr (States.users_states h.0)
  ]

  parent_user-set_held :
      (own : States F) (high : HighProfitSates F) (k usr : String)
      → parent_user (set_held k shared (own, high)) usr
        ≡ (if str_eq k usr then lookup usr own.users_states else parent_user (own, high) usr)
  parent_user-set_held own high k usr =
      let after = record high { parent = insert k shared (HighProfitSates.parent high) } in
      parent_user-read own after usr
      ∙ (rw (lookup-insert k usr shared high.parent, parent_user-read own high usr)
          (elim (Bool-cases (str_eq k usr)) [
            | inl same ↦ rw same refl
            | inr other ↦ rw other refl
          ]))

  write_back-next :
      (k : String) (ks : List String) (h : States F × HighProfitSates F) (u : UserStates F)
      → lookup k (States.users_states h.0) ≡ some u
      → write_back (k ∷ ks) h ≡ write_back ks (set_held k shared h)
  unfolding write_back
  write_back-next k ks h u e = rw (e, write_back) refl

  write_back-missing :
      (k : String) (ks : List String) (h : States F × HighProfitSates F)
      → lookup k (States.users_states h.0) ≡ none
      → write_back (k ∷ ks) h ≡ (err key_error, h)
  unfolding write_back
  write_back-missing k ks h e = rw (e, write_back) refl

  written-next :
      (k : String) (type : ℤ) (users : Dict ℤ) (h : States F × HighProfitSates F) (usr : String)
      → written users (set_held k shared h) usr ≡ written ((k, type) ∷ users) h usr
  written-next k type users h usr =
      let after = parent_user-set_held h.0 h.1 k usr in
      elim (Option-cases (lookup usr users)) [
        | inl e ↦ elim (Bool-cases (str_eq k usr)) [
          | inl same ↦ rw (e, same, written) (after ∙ (rw same refl))
          | inr other ↦ rw (e, other, written) (after ∙ (rw other refl))
        ]
        | inr (t, e) ↦ elim (Bool-cases (str_eq k usr)) [
          | inl same ↦ rw (e, same, written) refl
          | inr other ↦ rw (e, other, written) refl
        ]
      ]

  write_back-written :
      (users : Dict ℤ) (h : States F × HighProfitSates F)
      → Returns
          (λ h'. (h'.0 ≡ h.0) × ((usr : String) → parent_user h' usr ≡ written users h usr))
          (write_back (keys users))
          h
  unfolding write_back
  write_back-written [] h a e = (refl, λ usr. refl)
  write_back-written ((k, type) ∷ users) h a e =
      elim (Option-cases (lookup k (States.users_states h.0))) [
        | inl missing ↦ let raised = rw (write_back-missing k (keys users) h missing) at e in cc
        | inr (u, found) ↦
            let next = write_back-next k (keys users) h u found in
            let (same, rest) =
              write_back-written users (set_held k shared h) a (ap (λ r. r.0) (sym next) ∙ e) in
            rw next (same, λ usr. rest usr ∙ written-next k type users h usr)
      ]

  -- Where write_back_changed_states returns, each user of update_users reads in the full states as
  -- in the high-profit states, and each other user as before.
  pub write_back_changed_states-written :
      (own : States F) (high : HighProfitSates F) (usr : String)
      → (write_back_changed_states (own, high)).0 ≡ ok tt
      → parent_user (write_back_changed_states (own, high)).1 usr
        ≡ written high.update_users (own, high) usr
  unfolding write_back_changed_states
  write_back_changed_states-written own high usr e =
      (write_back-written high.update_users (own, high) tt e).1 usr
