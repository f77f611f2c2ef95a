-- ===== src/Users/Checked.antt =====
-- About check_user_and_reserve and the sum of each market's cTokens.
use compound_liquidation.Prelude.{
  eq_refl, inl, inr, Option-cases, String, ◌≡◌, refl, true, none, some, [], ◌∷◌, lookup, insert,
  adjust, arith, lookup-insert, lookup-adjust, ok,
}
use compound_liquidation.Prelude.Int.{ℤ, pos, int_laws, parts_of_eq}
use compound_liquidation.Prelude.Float.{Floats}
use compound_liquidation.Tokens.{new_reserve}
use compound_liquidation.Users.{UserStates, States}
use compound_liquidation.Users.Access.{new_user, check_user_and_reserve}
use compound_liquidation.Users.Sums.{col_of, total_held, total_held-insert_new, total_held-adjust}
use compound_liquidation.Users.Holds.{
  has, reserve_in, is_some, has-insert_new, has-add_reserve, held_in-insert_new,
}

module _ {F : Type 0} ⦃fl : Floats F⦄ where
  -- the three results of a check
  data Checked (user reserve : String) (s : States F) : Type 0 where
    user_added :
        lookup user s.users_states ≡ none
        → (check_user_and_reserve user reserve s).0 ≡ ok (pos 2)
        → (check_user_and_reserve user reserve s).1 ≡ record s {
          users_states =
              insert user
                (record new_user { reserves = (reserve, new_reserve) ∷ [] })
                s.users_states;
        }
        → Checked user reserve s
    reserve_added :
        (u : UserStates F)
        → lookup user s.users_states ≡ some u
        → lookup reserve u.reserves ≡ none
        → (check_user_and_reserve user reserve s).0 ≡ ok (pos 2)
        → (check_user_and_reserve user reserve s).1 ≡ record s {
          users_states =
              adjust user
                (λ v. record v { reserves = insert reserve new_reserve v.reserves })
                s.users_states;
        }
        → Checked user reserve s
    both_there :
        has user reserve s.users_states ≡ true
        → (check_user_and_reserve user reserve s).0 ≡ ok (pos 1)
        → (check_user_and_reserve user reserve s).1 ≡ s
        → Checked user reserve s

  checked : (user reserve : String) (s : States F) → Checked user reserve s
  unfolding check_user_and_reserve reserve_in is_some
  checked user reserve s = elim (Option-cases (lookup user s.users_states)) [
    | inl e ↦ user_added e (ground arith) (ground arith)
    | inr (u, e) ↦ elim (Option-cases (lookup reserve (UserStates.reserves u))) [
      | inl e' ↦ reserve_added u e e' (ground arith) (ground arith)
      | inr (r, e') ↦ both_there (ground arith) (ground arith) (ground arith)
    ]
  ]

  -- A check never raises.
  pub check-total :
      (user reserve : String) (s : States F)
      → (n : ℤ) × ((check_user_and_reserve user reserve s).0 ≡ ok n)
  check-total user reserve s = elim (checked user reserve s) [
    | user_added _ now _ ↦ (pos 2, now)
    | reserve_added _ _ _ now _ ↦ (pos 2, now)
    | both_there _ now _ ↦ (pos 1, now)
  ]

  pub total_held-check :
      (q user reserve : String) (s : States F)
      → total_held q (check_user_and_reserve user reserve s).1.users_states
        ≡ total_held q s.users_states
  unfolding col_of
  total_held-check q user reserve s = elim (checked user reserve s) [
    | user_added e _ now ↦
        let new = record new_user { reserves = (reserve, new_reserve) ∷ [] } in
        rw (now, total_held-insert_new q user new s.users_states e)
          (omega (int_laws, parts_of_eq (held_in-insert_new q reserve [] refl)))
    | reserve_added u e e' _ now ↦
        let add =
          λ (v : UserStates F). record v { reserves = insert reserve new_reserve v.reserves } in
        let same = held_in-insert_new q reserve u.reserves e' in
        rw now (
          omega (
            int_laws,
            parts_of_eq (total_held-adjust q user add u s.users_states e),
            parts_of_eq same,
          ))
    | both_there _ _ now ↦ rw now
  ]

  pub has-check :
      (user reserve : String) (s : States F)
      → has user reserve (check_user_and_reserve user reserve s).1.users_states ≡ true
  unfolding reserve_in is_some
  has-check user reserve s = elim (checked user reserve s) [
    | user_added e _ now ↦ rw (now, lookup-insert user user, eq_refl user, eq_refl reserve)
    | reserve_added u e e' _ now ↦ rw (
      now,
      lookup-adjust user user,
      eq_refl user,
      e,
      lookup-insert reserve reserve,
      eq_refl reserve,
    )
    | both_there h _ now ↦ rw now h
  ]

  pub has-check_of_has :
      (user reserve v q : String) (s : States F)
      → has user reserve s.users_states ≡ true
      → has user reserve (check_user_and_reserve v q s).1.users_states ≡ true
  unfolding reserve_in is_some
  has-check_of_has user reserve v q s h = elim (checked v q s) [
    | user_added e _ now ↦ rw now (has-insert_new user reserve v _ s.users_states e h)
    | reserve_added u e e' _ now ↦ rw now (has-add_reserve user reserve v q s.users_states h)
    | both_there _ _ now ↦ rw now h
  ]
