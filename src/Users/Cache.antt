-- ===== src/Users/Cache.antt =====
-- The cache files of configs/users.py: States.to_json and States.cache, which write them, and users_load
-- and reload_states, which read them at the start. A file is a record of what `json.dumps` is given,
-- which `json.load` gives back.
pub mod Reloaded
pub mod Once
use compound_liquidation.Prelude.{
  ℕ, String, Option, List, [], ◌∷◌, Dict, insert, Result, ok, err, raised, ◌>>=◌, ◌==◌,
  if◌then◌else◌,
}
use compound_liquidation.Prelude.Int.{ℤ, eqb_ℤ}
use compound_liquidation.Tokens.{
  to_list, CtokenInfos, CtokensFile, risks_to_dict, balances_to_dict, tokens_load,
}
use compound_liquidation.Users.{UserStates, States, user_states}
use compound_liquidation.Users.Queries.{trim}

-- a user of the file: "reserves", "healthFactor" and "vaiRepay"
pub record UserFile (F : Type 0) : Type 0 where
  pub reserves : Dict (List ℤ)
  pub health_factor : F × ℤ × ℤ
  pub vai_repay : ℤ

pub record UsersFile (F : Type 0) : Type 0 where
  pub users : Dict (UserFile F)
  pub last_update : ℤ
  pub block_hash : String

-- the three files
pub record CacheFiles (F : Type 0) : Type 0 where
  pub users : UsersFile F
  pub risks : CtokensFile
  pub balances : CtokensFile

-- a dict with the keys of another, assigned in its order
abbrev pub map_values : {V W : Type 0} → (V → W) → Dict V → Dict W
map_values f [] = []
map_values f ((k, v) ∷ d) = (k, f v) ∷ map_values f d

module _ {F : Type 0} where
  unfoldable pub user_to_json : UserStates F → UserFile F
  user_to_json u = record {
    reserves = map_values to_list (UserStates.reserves u);
    health_factor =
        (u.health_factor.value, u.health_factor.debt_volume, u.health_factor.last_update);
    vai_repay = u.vai_repay;
  }

  -- `to_json`
  unfoldable pub to_json : States F → Dict (UserFile F) × Dict (Dict ℤ) × Dict (Dict ℤ)
  unfolding user_to_json
  to_json s = (
    map_values user_to_json s.users_states,
    map_values (λ infos. risks_to_dict (CtokenInfos.risks infos)) s.ctokens,
    map_values (λ infos. balances_to_dict (CtokenInfos.balances infos)) s.ctokens,
  )

  -- `cache`: the files, and the states, which it trims
  unfoldable pub cache : States F → CacheFiles F × States F
  unfolding to_json
  cache s =
      let t = trim s in
      let (users, risks, balances) = to_json t in
      (
        record {
          users = record { users = users; last_update = t.last_update; block_hash = t.block_hash };
          risks = record { reserves = risks; last_update = t.last_update };
          balances = record { reserves = balances; last_update = t.last_update };
        },
        t,
      )

  -- one user of the file
  unfoldable pub user_of_json : UserFile F → Result (UserStates F)
  user_of_json file =
      let (value, debt_volume, last_update) = UserFile.health_factor file in
      user_states (UserFile.reserves file)
        (record { value = value; debt_volume = debt_volume; last_update = last_update })
        (UserFile.vai_repay file)

  unfoldable pub users_from : Dict (UserStates F) → Dict (UserFile F) → Result (Dict (UserStates F))
  unfolding user_of_json
  users_from results [] = ok results
  users_from results ((user, file) ∷ rest) = do
    u ← user_of_json file
    users_from (insert user u results) rest

  -- `users_load`, where `status` is `users_file_status` of the configuration and `init` its
  -- `init_block_number`
  unfoldable pub users_load :
      (status : ℕ) (init : ℤ) → UsersFile F → Result (Dict (UserStates F) × ℤ × String)
  unfolding users_from
  users_load status init file =
      if status == 1
      then (do
        results ← users_from [] (UsersFile.users file)
        ok (results, file.last_update, file.block_hash))
      else ok ([], init, "")

  -- `reload_states`
  unfoldable pub reload_states :
      (status : ℕ) (init : ℤ) (reserves : List String) → CacheFiles F → Result (States F)
  unfolding users_load
  reload_states status init reserves files = do
    (users_states, last_update_u, block_hash) ← users_load status init (CacheFiles.users files)
    (ctokens_infos, last_update_t) ←
        tokens_load status init reserves (CacheFiles.balances files) (CacheFiles.risks files)
    if eqb_ℤ last_update_u last_update_t
        then ok (record {
          users_states = users_states;
          ctokens = ctokens_infos;
          last_update = last_update_u;
          block_hash = block_hash;
          plug_in = Option.none;
        })
        else err raised
