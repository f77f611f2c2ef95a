-- ===== src/Users/Cache/Reloaded.antt =====
-- About the states that reload_states of configs/users.py makes of the files of States.cache.
use compound_liquidation.Prelude.{
  String, [], ◌∷◌, Dict, lookup, insert, keys, update_all, refl, ap, ◌≡◌, arith, All, ok, some,
  none, str_eq, eq_refl, false, Bool-cases, inl, inr,
}
use compound_liquidation.Prelude.Int.{ℤ}
use compound_liquidation.Prelude.Distinct.{IsDistinct, ne-flip, update_all-IsDistinct}
use compound_liquidation.Tokens.{
  CompReserve, to_list, reserve_of_list, reserves_load, reserves_load_from, load_values,
  CtokenInfos, ctoken_infos, CtokenRiskParams, CtokenBalances, infos_from, tokens_load,
  reload_ctokens_balances, reload_ctokens_risks, risks_to_dict, risks_of_dict, balances_to_dict,
  balances_of_dict, new_ctoken_risks, new_ctoken_balances,
}
use compound_liquidation.Users.{UserStates, States, user_states}
use compound_liquidation.Users.Queries.{trim, trim_users, trim_reserves, is_empty}
use compound_liquidation.Users.Cache.{
  map_values, user_to_json, to_json, cache, user_of_json, users_from, users_load, reload_states,
}

module _ {V W : Type 0} (f : V → W) where
  keys-map_values : (d : Dict V) → keys (map_values f d) ≡ keys d
  keys-map_values [] = refl
  keys-map_values ((k, v) ∷ d) = ap (λ ks. k ∷ ks) (keys-map_values d)

  -- every entry can be looked up
  abbrev Holds : Dict W → Dict V → Type 0
  Holds all d = All (λ e. lookup e.0 all ≡ some (f e.1)) d

  Holds-later :
      (k : String) (w : W) (all : Dict W) (d : Dict V)
      → All (λ j. str_eq j k ≡ false) (keys d)
      → Holds all d
      → Holds ((k, w) ∷ all) d
  Holds-later k w all [] ne h = tt
  Holds-later k w all ((j, v) ∷ d) ne h =
      (rw (ne-flip j k ne.0) h.0, Holds-later k w all d ne.1 h.1)

  lookup-map_values : (d : Dict V) → IsDistinct (keys d) → Holds (map_values f d) d
  lookup-map_values [] h = tt
  lookup-map_values ((k, v) ∷ d) h =
      (rw (eq_refl k) refl, Holds-later k (f v) (map_values f d) d h.0 (lookup-map_values d h.1))

reserves-reloaded :
    (acc d : Dict CompReserve)
    → reserves_load_from acc (map_values to_list d) ≡ ok (update_all acc d)
unfolding reserves_load_from reserve_of_list to_list
reserves-reloaded acc [] = refl
reserves-reloaded acc ((k, r) ∷ d) = reserves-reloaded (insert k r acc) d

load-map_values :
    {V W : Type 0} (f : Dict ℤ → W) (g : V → Dict ℤ) (acc : Dict W) (d : Dict V)
    → load_values f acc (map_values g d) ≡ update_all acc (map_values (λ v. f (g v)) d)
unfolding load_values
load-map_values f g acc [] = refl
load-map_values f g acc ((k, v) ∷ d) = load-map_values f g (insert k (f (g v)) acc) d

module _ {F : Type 0} where
  user-reloaded :
      (u : UserStates F) → IsDistinct (keys u.reserves) → user_of_json (user_to_json u) ≡ ok u
  unfolding user_of_json user_to_json user_states reserves_load
  user-reloaded u h = rw (reserves-reloaded [] u.reserves, update_all-IsDistinct u.reserves h) refl

  -- the reserves of every user stand under distinct keys
  abbrev pub AllDistinct : Dict (UserStates F) → Type 0
  AllDistinct users = All (λ e. IsDistinct (keys (UserStates.reserves e.1))) users

  users-reloaded :
      (acc users : Dict (UserStates F))
      → AllDistinct users
      → users_from acc (map_values user_to_json users) ≡ ok (update_all acc users)
  unfolding users_from
  users-reloaded acc [] h = refl
  users-reloaded acc ((k, u) ∷ users) h =
      rw (user-reloaded u h.0) (users-reloaded (insert k u acc) users h.1)

-- what comes back of a market: its borrow index and its supply
abbrev pub infos_reloaded : CtokenInfos → CtokenInfos
infos_reloaded infos = record {
  risks = record new_ctoken_risks { borrow_index = infos.risks.borrow_index };
  balances = record new_ctoken_balances { total_supply = infos.balances.total_supply };
  configs = none;
  price = none;
}

abbrev risks_reloaded : CtokenInfos → CtokenRiskParams
risks_reloaded infos = risks_of_dict (risks_to_dict infos.risks)

abbrev balances_reloaded : CtokenInfos → CtokenBalances
balances_reloaded infos = balances_of_dict (balances_to_dict infos.balances)

infos-map_values :
    (risks : Dict CtokenRiskParams) (balances : Dict CtokenBalances) (acc d : Dict CtokenInfos)
    → Holds risks_reloaded risks d
    → Holds balances_reloaded balances d
    → infos_from risks balances acc (keys d) ≡ update_all acc (map_values infos_reloaded d)
unfolding infos_from ctoken_infos risks_of_dict risks_to_dict balances_of_dict balances_to_dict
infos-map_values risks balances acc [] r b = refl
infos-map_values risks balances acc ((k, infos) ∷ d) r b =
    rw (r.0, b.0, infos_from)
      (infos-map_values risks balances (insert k (infos_reloaded infos) acc) d r.1 b.1)

IsDistinct-map_values :
    {V W : Type 0} (f : V → W) (d : Dict V)
    → IsDistinct (keys d)
    → IsDistinct (keys (map_values f d))
IsDistinct-map_values f d h = rw (keys-map_values f d) h

tokens-reloaded :
    (init last_update : ℤ) (d : Dict CtokenInfos)
    → IsDistinct (keys d)
    → tokens_load 1 init
        (keys d)
        (record {
          reserves = map_values (λ infos. balances_to_dict (CtokenInfos.balances infos)) d;
          last_update = last_update;
        })
        (record {
          reserves = map_values (λ infos. risks_to_dict (CtokenInfos.risks infos)) d;
          last_update = last_update;
        })
      ≡ ok (map_values infos_reloaded d, last_update)
unfolding tokens_load reload_ctokens_balances reload_ctokens_risks
tokens-reloaded init last_update d h =
    rw
      (
        load-map_values risks_of_dict (λ infos. risks_to_dict (CtokenInfos.risks infos)) [] d,
        load-map_values balances_of_dict (λ infos. balances_to_dict (CtokenInfos.balances infos)) []
            d,
        update_all-IsDistinct (map_values risks_reloaded d)
            (IsDistinct-map_values risks_reloaded d h),
        update_all-IsDistinct (map_values balances_reloaded d)
            (IsDistinct-map_values balances_reloaded d h),
        infos-map_values (map_values risks_reloaded d) (map_values balances_reloaded d) [] d
            (lookup-map_values risks_reloaded d h) (lookup-map_values balances_reloaded d h),
        update_all-IsDistinct (map_values infos_reloaded d)
            (IsDistinct-map_values infos_reloaded d h),
      )
      (ground arith)

-- what trim leaves stands under distinct keys too
absent-trim_reserves :
    (k : String) (d : Dict CompReserve)
    → All (λ j. str_eq j k ≡ false) (keys d)
    → All (λ j. str_eq j k ≡ false) (keys (trim_reserves d))
unfolding trim_reserves
absent-trim_reserves k [] h = tt
absent-trim_reserves k ((j, r) ∷ d) h = elim (Bool-cases (is_empty r)) [
  | inl e ↦ rw (e, trim_reserves) (absent-trim_reserves k d h.1)
  | inr e ↦ rw (e, trim_reserves) (h.0, absent-trim_reserves k d h.1)
]

IsDistinct-trim_reserves :
    (d : Dict CompReserve) → IsDistinct (keys d) → IsDistinct (keys (trim_reserves d))
unfolding trim_reserves
IsDistinct-trim_reserves [] h = tt
IsDistinct-trim_reserves ((j, r) ∷ d) h = elim (Bool-cases (is_empty r)) [
  | inl e ↦ rw (e, trim_reserves) (IsDistinct-trim_reserves d h.1)
  | inr e ↦ rw (e, trim_reserves) (absent-trim_reserves j d h.0, IsDistinct-trim_reserves d h.1)
]

module _ {F : Type 0} where
  keys-trim_users : (users : Dict (UserStates F)) → keys (trim_users users) ≡ keys users
  unfolding trim_users
  keys-trim_users [] = refl
  keys-trim_users ((k, u) ∷ users) = ap (λ ks. k ∷ ks) (keys-trim_users users)

  AllDistinct-trim_users :
      (users : Dict (UserStates F)) → AllDistinct users → AllDistinct (trim_users users)
  unfolding trim_users
  AllDistinct-trim_users [] h = tt
  AllDistinct-trim_users ((k, u) ∷ users) h =
      (IsDistinct-trim_reserves u.reserves h.0, AllDistinct-trim_users users h.1)

  -- Where the users, the reserves of each user and the markets stand under distinct keys and the
  -- configuration says to read the files: reload_states of the files that cache writes, for the
  -- markets of the states, returns the states as cache has trimmed them, with the same block and
  -- hash, but each market has kept its borrow index and its supply alone, and the plug-in is not
  -- set.
  pub reload_states-cache :
      (init : ℤ) (s : States F)
      → IsDistinct (keys s.users_states)
      → AllDistinct s.users_states
      → IsDistinct (keys s.ctokens)
      → let (files, t) = cache s in
        reload_states 1 init (keys s.ctokens) files
        ≡ ok (record t { ctokens = map_values infos_reloaded s.ctokens; plug_in = none })
  unfolding cache to_json reload_states users_load trim
  reload_states-cache init s users reserves ctokens =
      let t = trim_users s.users_states in
      rw
        (
          users-reloaded [] t (AllDistinct-trim_users s.users_states reserves),
          update_all-IsDistinct t (rw (keys-trim_users s.users_states) users),
          tokens-reloaded init s.last_update s.ctokens ctokens,
        )
        (ground arith)
