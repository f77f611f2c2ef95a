-- ===== src/Users/Cache/Once.antt =====
-- About the keys of the users, through the cache files of configs/users.py and filter_states.
use mathlib.Core.Path.{subst}
use compound_liquidation.Prelude.{
  ℕ, String, Dict, List, [], ◌∷◌, keys, ok, ok_injective, ◌≡◌, refl, sym, ap, All, false, str_eq,
  Bool-cases, inl, inr, insert, >>=-eq-ok, ◌==◌,
}
use compound_liquidation.Prelude.Int.{ℤ, ltb_ℤ, eqb_ℤ}
use compound_liquidation.Prelude.Distinct.{IsDistinct, insert-IsDistinct}
use compound_liquidation.Tokens.{tokens_load}
use compound_liquidation.Users.{States, UserStates}
use compound_liquidation.Users.Queries.{trim, trim_users, filter_states}
use compound_liquidation.Users.Once.{HasOnce}
use compound_liquidation.Users.Cache.{
  UserFile, UsersFile, CacheFiles, cache, user_of_json, users_from, users_load, reload_states,
}

module _ {F : Type 0} where
  keys-trim_users : (d : Dict (UserStates F)) → keys (trim_users d) ≡ keys d
  unfolding trim_users
  keys-trim_users [] = refl
  keys-trim_users ((user, u) ∷ d) = ap (λ ks. user ∷ ks) (keys-trim_users d)

  pub cache-HasOnce : (s : States F) → HasOnce s → HasOnce (cache s).1
  unfolding cache trim
  cache-HasOnce s h = subst IsDistinct (sym (keys-trim_users s.users_states)) h

  filter_states-All :
      (P : String → Type 0) (d : Dict (UserStates F)) (thres : ℤ)
      → All P (keys d)
      → All P (keys (filter_states d thres))
  unfolding filter_states
  filter_states-All P [] thres h = tt
  filter_states-All P ((usr, u) ∷ d) thres h =
      elim (Bool-cases (ltb_ℤ thres u.health_factor.debt_volume)) [
        | inl e ↦ rw e (h.0, filter_states-All P d thres h.1)
        | inr e ↦ rw e (filter_states-All P d thres h.1)
      ]

  pub filter_states-IsDistinct :
      (d : Dict (UserStates F)) (thres : ℤ)
      → IsDistinct (keys d)
      → IsDistinct (keys (filter_states d thres))
  unfolding filter_states
  filter_states-IsDistinct [] thres h = tt
  filter_states-IsDistinct ((usr, u) ∷ d) thres h =
      elim (Bool-cases (ltb_ℤ thres u.health_factor.debt_volume)) [
        | inl e ↦ rw e (
          filter_states-All (λ j. str_eq j usr ≡ false) d thres h.0,
          filter_states-IsDistinct d thres h.1,
        )
        | inr e ↦ rw e (filter_states-IsDistinct d thres h.1)
      ]

  users_from-IsDistinct :
      (results : Dict (UserStates F)) (users : Dict (UserFile F)) (d : Dict (UserStates F))
      → users_from results users ≡ ok d
      → IsDistinct (keys results)
      → IsDistinct (keys d)
  unfolding users_from
  users_from-IsDistinct results [] d e h =
      subst (λ x. IsDistinct (keys x)) (ok_injective results d e) h
  users_from-IsDistinct results ((user, file) ∷ rest) d e h =
      let (u, e', e'') = >>=-eq-ok (user_of_json file) _ e in
      users_from-IsDistinct (insert user u results) rest d e'' (insert-IsDistinct user u results h)

  users_load-IsDistinct :
      (status : ℕ) (init : ℤ) (file : UsersFile F) (found : Dict (UserStates F) × ℤ × String)
      → users_load status init file ≡ ok found
      → IsDistinct (keys found.0)
  unfolding users_load
  users_load-IsDistinct status init file found e = elim (Bool-cases (status == 1)) [
    | inl b ↦
        let (d, e', e'') = >>=-eq-ok (users_from [] file.users) _ (rw b at e) in
        subst (λ x. IsDistinct (keys x.0)) (ok_injective _ found e'')
          (users_from-IsDistinct [] file.users d e' tt)
    | inr b ↦ subst (λ x. IsDistinct (keys x.0)) (ok_injective _ found (rw b at e)) tt
  ]

  -- The states that are read from the files hold no user twice.
  pub reload_states-HasOnce :
      (status : ℕ) (init : ℤ) (reserves : List String) (files : CacheFiles F) (s : States F)
      → reload_states status init reserves files ≡ ok s
      → HasOnce s
  unfolding reload_states
  reload_states-HasOnce status init reserves files s e =
      let (found, e1, e2) = >>=-eq-ok (users_load status init (CacheFiles.users files)) _ e in
      let (tokens, e3, e4) =
        >>=-eq-ok
          (tokens_load status init reserves (CacheFiles.balances files) (CacheFiles.risks files)) _
          e2 in
      let once = users_load-IsDistinct status init files.users found e1 in
      elim (Bool-cases (eqb_ℤ found.1 tokens.1)) [
        | inl b ↦ subst HasOnce (ok_injective _ s (rw b at e4)) once
        | inr b ↦ let bad = rw b at e4 in cc
      ]
