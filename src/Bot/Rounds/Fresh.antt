-- ===== src/Bot/Rounds/Fresh.antt =====
-- About the time of the health factors that liquidate of compound.py's rounds writes.
use compound_liquidation.Prelude.{
  String, ◌≡◌, refl, ap, sym, inl, inr, Option, some, List, [], ◌∷◌, lookup, Bool-cases, adjust, ok,
  All, arith, Option-cases, lookup-adjust, eq_refl, >>=-eq-ok, ok_injective, Dict, at_key, str_eq,
}
use compound_liquidation.Prelude.Int.{ℤ}
use compound_liquidation.Prelude.Float.{Floats}
use compound_liquidation.Prelude.Exec.{Returns, bind-Returns}
use mathlib.Core.Path.{subst}
use compound_liquidation.Send.Bnb48.{send_transactions}
use compound_liquidation.Comet.{CometConfigs}
use compound_liquidation.Tokens.{CtokenInfos}
use compound_liquidation.Users.{States, UserStates}
use compound_liquidation.Health.{
  HealthResult, UserArgs, gen_users_with_args, calculate_health_factor,
  signal_calculate_health_factor, set_health, write_health_factor, health_sums,
}
use compound_liquidation.Bot.Rounds.{numbered, simulate, liquidate}
use compound_liquidation.Bot.{World, Outside, reads, on_sender, health_of}

abbrev users_of : List UserArgs → List String
users_of [] = []
users_of (args ∷ rest) = args.usr ∷ users_of rest

module _ {F : Type 0} ⦃fl : Floats F⦄ where
  -- the health factor of the user is of the time `now`
  abbrev pub IsFresh : ℤ → States F → String → Type 0
  IsFresh now s usr =
      (u : UserStates F) × (lookup usr s.users_states ≡ some u)
      × (u.health_factor.last_update ≡ now)

  abbrev IsOf : ℤ → HealthResult F → Type 0
  IsOf now r = r.health_factor.last_update ≡ now

  -- the results are of the users, in their order, and of the time
  abbrev Matches : ℤ → List String → List (HealthResult F) → Type 0
  Matches now [] [] = Unit
  Matches now [] (r ∷ rs) = ⊥
  Matches now (u ∷ us) [] = ⊥
  Matches now (u ∷ us) (r ∷ rs) = ((r.usr ≡ u) × IsOf now r) × Matches now us rs

  calculated :
      (now : ℤ) (args : UserArgs) (ctk : Dict CtokenInfos) (comet : CometConfigs)
      (r : HealthResult F)
      → calculate_health_factor now args ctk comet ≡ ok r
      → (r.usr ≡ args.usr) × IsOf now r
  unfolding calculate_health_factor
  calculated now args ctk comet r h =
      let (sums, e, h') = >>=-eq-ok (health_sums ctk comet _ args.reserves) _ h in ground arith

  signal_calculated :
      (now : ℤ) (l : List UserArgs) (ctk : Dict CtokenInfos) (comet : CometConfigs)
      (rs : List (HealthResult F))
      → signal_calculate_health_factor now l ctk comet ≡ ok rs
      → Matches now (users_of l) rs
  unfolding signal_calculate_health_factor
  signal_calculated now [] ctk comet rs h = rw (sym (ok_injective _ _ h)) tt
  signal_calculated now (args ∷ l) ctk comet rs h =
      let (r, e, h') = >>=-eq-ok (calculate_health_factor now args ctk comet) _ h in
      let (rest, e', h'') = >>=-eq-ok (signal_calculate_health_factor now l ctk comet) _ h' in
      rw (sym (ok_injective _ _ h''))
        (calculated now args ctk comet r e, signal_calculated now l ctk comet rest e')

  users_of-gen :
      (s : States F) (users : List String) (l : List UserArgs)
      → gen_users_with_args s users ≡ ok l
      → users_of l ≡ users
  unfolding gen_users_with_args
  users_of-gen s [] l h = rw (sym (ok_injective _ _ h)) refl
  users_of-gen s (usr ∷ users) l h =
      let (u, e, h') = >>=-eq-ok (at_key usr s.users_states) _ h in
      let (rest, e', h'') = >>=-eq-ok (gen_users_with_args s users) _ h' in
      rw (sym (ok_injective _ _ h'')) (ap (λ us. usr ∷ us) (users_of-gen s users rest e'))

  health_of-Matches :
      (now : ℤ) (users : List String) (w : World F) (rs : List (HealthResult F))
      → health_of now users w ≡ ok rs
      → Matches now users rs
  unfolding health_of
  health_of-Matches now users w rs h =
      let (l, e, h') = >>=-eq-ok (gen_users_with_args w.states users) _ h in
      subst (λ us. Matches now us rs) (users_of-gen w.states users l e)
        (signal_calculated now l w.states.ctokens w.comet rs h')

  abbrev written : HealthResult F → States F → States F
  written r s = record s { users_states = adjust r.usr (set_health r.health_factor) s.users_states }

  written-IsFresh :
      (now : ℤ) (r : HealthResult F) (s : States F) (usr : String)
      → IsOf now r
      → IsFresh now s usr
      → IsFresh now (written r s) usr
  written-IsFresh now r s usr h (u, e, t) = elim (Bool-cases (str_eq r.usr usr)) [
    | inl same ↦ (
      set_health r.health_factor u,
      rw (lookup-adjust r.usr usr (set_health r.health_factor) s.users_states, same, e) refl,
      h,
    )
    | inr other ↦
        (u, rw (lookup-adjust r.usr usr (set_health r.health_factor) s.users_states, other) e, t)
  ]

  write-IsFresh :
      (now : ℤ) (users : List String) (rs : List (HealthResult F)) (s : States F) (usr : String)
      → Matches now users rs
      → IsFresh now s usr
      → IsFresh now (write_health_factor rs s).1 usr
  unfolding write_health_factor
  write-IsFresh now [] [] s usr m h = h
  write-IsFresh now [] (r ∷ rs) s usr m h = elim m [ ]
  write-IsFresh now (u ∷ users) [] s usr m h = elim m [ ]
  write-IsFresh now (u ∷ users) (r ∷ rs) s usr m h =
      elim (Option-cases (lookup (HealthResult.usr r) s.users_states)) [
        | inl e ↦ rw (e, write_health_factor) h
        | inr (v, e) ↦
            rw (e, write_health_factor)
              (write-IsFresh now users rs (written r s) usr m.1
                (written-IsFresh now r s usr m.0.1 h))
      ]

  write-cons :
      (r : HealthResult F) (rs : List (HealthResult F)) (s : States F) (v : UserStates F)
      → lookup r.usr s.users_states ≡ some v
      → write_health_factor (r ∷ rs) s ≡ write_health_factor rs (written r s)
  unfolding write_health_factor
  write-cons r rs s v e = rw (e, write_health_factor) refl

  write-All-IsFresh :
      (now : ℤ) (users : List String) (rs : List (HealthResult F)) (s : States F)
      → Matches now users rs
      → (write_health_factor rs s).0 ≡ ok tt
      → All (IsFresh now (write_health_factor rs s).1) users
  unfolding write_health_factor
  write-All-IsFresh now [] [] s m h = tt
  write-All-IsFresh now [] (r ∷ rs) s m h = elim m [ ]
  write-All-IsFresh now (u ∷ users) [] s m h = elim m [ ]
  write-All-IsFresh now (u ∷ users) (r ∷ rs) s m h =
      elim (Option-cases (lookup (HealthResult.usr r) s.users_states)) [
        | inl e ↦ cc (rw (e, write_health_factor) at h)
        | inr (v, e) ↦
            let step = write-cons r rs s v e in
            let there : lookup u s.users_states ≡ some v =
              subst (λ k. lookup k s.users_states ≡ some v) m.0.0 e in
            let new : IsFresh now (written r s) u = (
              set_health r.health_factor v,
              rw
                  (
                    lookup-adjust r.usr u (set_health r.health_factor) s.users_states,
                    m.0.0,
                    eq_refl u,
                    there,
                  )
                  refl,
              m.0.1,
            ) in
            subst (λ t. All (IsFresh now t.1) (u ∷ users)) (sym step)
              (
                write-IsFresh now users rs (written r s) u m.1 new,
                write-All-IsFresh now users rs (written r s) m.1 (rw step at h),
              )
      ]

  abbrev pub AllFresh : ℤ → List String → World F → Type 0
  AllFresh now users w = All (IsFresh now w.states) users

  -- Where a round of liquidations returns, it has written the factors of all its users.
  pub liquidate-fresh :
      (out : Outside F) (now : ℤ) (users : List String) (gas : Option ℤ) (raw : Option String)
      (w : World F)
      → Returns (AllFresh now users) (liquidate out now users gas raw) w
  unfolding liquidate
  liquidate-fresh out now users gas raw w =
      bind-Returns (AllFresh now users) (reads (health_of now users)) _ w (λ rs e.
        bind-Returns (AllFresh now users) (simulate out gas (numbered (Outside.unique_id out) 0 rs))
          _ w
          (λ coroutines _.
            bind-Returns (AllFresh now users) (on_sender (send_transactions coroutines raw)) _ _
              (λ _ _ _ h.
                write-All-IsFresh now users rs w.states (health_of-Matches now users w rs e) h)))
