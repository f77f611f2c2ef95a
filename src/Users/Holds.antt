-- ===== src/Users/Holds.antt =====
-- Which reserves are there after a check and an assignment, and what these do to the sum of a market.
use mathlib.Core.Bool.{false≢true}
use mathlib.Core.Option
use compound_liquidation.Prelude.{
  Bool-cases, inl, inr, Option-cases, String, ◌≡◌, refl, Bool, true, false, Option, none, some,
  Dict, lookup, insert, adjust, arith, eq_iff, str_eq, if◌then◌else◌, lookup-insert, lookup-adjust,
  ok,
}
use compound_liquidation.Prelude.Int.{ℤ, pos, ◌+ℤ◌, int_laws, parts_of_eq}
use compound_liquidation.Tokens.{CompReserve, new_reserve}
use compound_liquidation.Users.{UserStates, States}
use compound_liquidation.Users.Access.{with_reserve}
use compound_liquidation.Users.Sums.{col_of, held_in, total_held, total_held-adjust}

-- the user is there, with the reserve
unfoldable pub is_some : {A : Type 0} → Option A → Bool
is_some none = false
is_some (some a) = true

unfoldable pub reserve_in : {F : Type 0} → String → Option (UserStates F) → Bool
unfolding is_some
reserve_in reserve none = false
reserve_in reserve (some u) = is_some (lookup reserve u.reserves)

abbrev pub in_market : String → String → ℤ → ℤ
in_market reserve q amount = if str_eq reserve q then amount else pos 0

held_in-adjust :
    (q reserve : String) (f : CompReserve → CompReserve) (r : CompReserve) (d : Dict CompReserve)
    → lookup reserve d ≡ some r
    → held_in q (adjust reserve f d) +ℤ in_market reserve q r.col_amount
      ≡ held_in q d +ℤ in_market reserve q (CompReserve.col_amount (f r))
unfolding col_of
held_in-adjust q reserve f r d h = elim (Bool-cases (str_eq reserve q)) [
  | inl e ↦ rw (lookup-adjust reserve q f d, e, ← (eq_iff reserve q).0 e, h) (omega int_laws)
  | inr e ↦ rw (lookup-adjust reserve q f d, e)
]

pub held_in-insert_new :
    (q reserve : String) (d : Dict CompReserve)
    → lookup reserve d ≡ none
    → held_in q (insert reserve new_reserve d) ≡ held_in q d
unfolding col_of
held_in-insert_new q reserve d h = elim (Bool-cases (str_eq reserve q)) [
  | inl e ↦ rw (lookup-insert reserve q new_reserve d, e, ← (eq_iff reserve q).0 e, h)
  | inr e ↦ rw (lookup-insert reserve q new_reserve d, e)
]

module _ {F : Type 0} where
  abbrev pub has : String → String → Dict (UserStates F) → Bool
  has user reserve d = reserve_in reserve (lookup user d)

  -- A reserve that is there: its user's entry, and its own.
  found :
      (user reserve : String) (d : Dict (UserStates F))
      → has user reserve d ≡ true
      → (u : UserStates F) × (r : CompReserve) × (lookup user d ≡ some u)
        × (lookup reserve u.reserves ≡ some r)
  unfolding reserve_in
  found user reserve d h = elim (Option-cases (lookup user d)) [
    | inl e ↦ absurd (false≢true (rw (e, reserve_in) at h))
    | inr (u, e) ↦ elim (Option-cases (lookup reserve (UserStates.reserves u))) [
      | inl e' ↦ absurd (false≢true (rw (e, reserve_in, e', is_some) at h))
      | inr (r, e') ↦ (u, r, e, e')
    ]
  ]

  -- An assignment to the balance of a reserve that is there moves the sum of its market by the change.
  total_held-set :
      (q user reserve : String) (f : CompReserve → CompReserve) (u : UserStates F) (r : CompReserve)
      (d : Dict (UserStates F))
      → lookup user d ≡ some u
      → lookup reserve u.reserves ≡ some r
      → total_held q (adjust user (λ v. record v { reserves = adjust reserve f v.reserves }) d)
          +ℤ in_market reserve q r.col_amount
        ≡ total_held q d +ℤ in_market reserve q (CompReserve.col_amount (f r))
  total_held-set q user reserve f u r d hu hr =
      let put = λ (v : UserStates F). record v { reserves = adjust reserve f v.reserves } in
      let now = held_in-adjust q reserve f r u.reserves hr in
      omega (int_laws, parts_of_eq (total_held-adjust q user put u d hu), parts_of_eq now)

  -- An assignment to a reserve that is there returns.
  pub with_reserve-total :
      (q user reserve : String) (f : CompReserve → CompReserve) (s : States F)
      → has user reserve s.users_states ≡ true
      → (r : CompReserve) × ((with_reserve user reserve f s).0 ≡ ok tt)
        × (total_held q (with_reserve user reserve f s).1.users_states
              +ℤ in_market reserve q r.col_amount
            ≡ total_held q s.users_states +ℤ in_market reserve q (CompReserve.col_amount (f r)))
  unfolding with_reserve
  with_reserve-total q user reserve f s h =
      let (u, r, hu, hr) = found user reserve s.users_states h in
      let set = total_held-set q user reserve f u r s.users_states hu hr in
      (r, ground arith, ground arith)

  abbrev put : String → (CompReserve → CompReserve) → UserStates F → UserStates F
  put q f u = record u { reserves = adjust q f u.reserves }

  reserve_in-put :
      (reserve q : String) (f : CompReserve → CompReserve) (o : Option (UserStates F))
      → reserve_in reserve (Option.map (put q f) o) ≡ reserve_in reserve o
  unfolding reserve_in is_some
  reserve_in-put reserve q f none = refl
  reserve_in-put reserve q f (some u) = elim (Option-cases (lookup reserve u.reserves)) [
    | inl e ↦ ground (arith, lookup-adjust q reserve f u.reserves)
    | inr (r, e) ↦ ground (arith, lookup-adjust q reserve f u.reserves)
  ]

  has-put :
      (user reserve v q : String) (f : CompReserve → CompReserve) (d : Dict (UserStates F))
      → has user reserve (adjust v (put q f) d) ≡ has user reserve d
  has-put user reserve v q f d =
      ground (arith, lookup-adjust v user (put q f) d, reserve_in-put reserve q f (lookup user d))

  pub has-insert_new :
      (user reserve v : String) (new : UserStates F) (d : Dict (UserStates F))
      → lookup v d ≡ none
      → has user reserve d ≡ true
      → has user reserve (insert v new d) ≡ true
  unfolding reserve_in
  has-insert_new user reserve v new d e h = elim (Bool-cases (str_eq v user)) [
    | inl same ↦ absurd (false≢true (rw (← (eq_iff v user).0 same, e) at h))
    | inr other ↦ rw (lookup-insert v user new d, other) h
  ]

  abbrev add_reserve : String → UserStates F → UserStates F
  add_reserve q u = record u { reserves = insert q new_reserve u.reserves }

  reserve_in-add :
      (reserve q : String) (o : Option (UserStates F))
      → reserve_in reserve o ≡ true
      → reserve_in reserve (Option.map (add_reserve q) o) ≡ true
  unfolding reserve_in is_some
  reserve_in-add reserve q none h = h
  reserve_in-add reserve q (some u) h = elim (Bool-cases (str_eq q reserve)) [
    | inl e ↦ rw (lookup-insert q reserve new_reserve u.reserves, e)
    | inr e ↦ rw (lookup-insert q reserve new_reserve u.reserves, e) h
  ]

  pub has-add_reserve :
      (user reserve v q : String) (d : Dict (UserStates F))
      → has user reserve d ≡ true
      → has user reserve (adjust v (add_reserve q) d) ≡ true
  has-add_reserve user reserve v q d h = elim (Bool-cases (str_eq v user)) [
    | inl e ↦
        rw (lookup-adjust v user (add_reserve q) d, e) (reserve_in-add reserve q (lookup user d) h)
    | inr e ↦ rw (lookup-adjust v user (add_reserve q) d, e) h
  ]

  pub has-with_reserve :
      (user reserve v q : String) (f : CompReserve → CompReserve) (s : States F)
      → has user reserve s.users_states ≡ true
      → has user reserve (with_reserve v q f s).1.users_states ≡ true
  unfolding with_reserve
  has-with_reserve user reserve v q f s h = elim (Option-cases (lookup v s.users_states)) [
    | inl e ↦ ground arith
    | inr (u, e) ↦ elim (Option-cases (lookup q (UserStates.reserves u))) [
      | inl e' ↦ ground arith
      | inr (r, e') ↦ ground (arith, has-put user reserve v q f s.users_states)
    ]
  ]
