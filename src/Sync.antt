-- ===== src/Sync.antt =====
-- Bringing the users up to a block: query_events_loop of configs/utils.py, and query_events_loop_liq,
-- sync_states, gen_states_filter, user_state_extend_hook and reload_and_extend_states of configs/users.py. The chain is a parameter.
pub mod Kept
pub mod Reach
pub mod Windows
use compound_liquidation.Prelude.{
  ℕ, zero, suc, ◌+◌, String, Bool, true, false, Option, none, some, List, [], ◌∷◌, ◌++◌, keys, Dict,
  lookup, adjust, update_all, Result, ok, err, key_error, leb, str_eq, if◌then◌else◌,
}
use compound_liquidation.Prelude.Int.{ℤ, pos, pos_part, ◌+ℤ◌, ◌-ℤ◌, ltb_ℤ}
use compound_liquidation.Prelude.Float.{Floats}
use compound_liquidation.Prelude.Exec.{Exec, pure, lift, modify, each, ◌>>=◌, ◌>>◌}
use compound_liquidation.Chain.{Eth, LogReceipt}
use compound_liquidation.Tokens.{CompReserve}
use compound_liquidation.Events.{State, gen_topics}
use compound_liquidation.Users.{States}
use compound_liquidation.Users.Handlers.{update}

-- `data_cache_hook`, where `cache` writes the files, and `empty_hook`
pub data_cache_hook : {S : Type 0} → Exec S (Unit {0}) → ℕ → Exec S ℕ
data_cache_hook cache count = if leb 100 count then (cache >> pure 0) else pure count

pub empty_hook : {S : Type 0} → ℕ → Exec S ℕ
empty_hook count = pure 0

-- the last block of the window after `last_update`: 2000 blocks at most
unfoldable pub window_end : (last_update target_block : ℤ) → ℤ
window_end last_update target_block =
    let to_block = last_update +ℤ pos 1 +ℤ pos 1999 in
    if ltb_ℤ target_block to_block then target_block else to_block

-- A synchronised object, with what the loop calls of it and of the chain.
pub record Synced (S : Type 0) : Type 0 where
  pub last_update : S → ℤ
  pub set_last_update : ℤ → S → S
  pub update : LogReceipt → Exec S (Dict ℤ)
  pub get_logs : (from_block to_block : ℤ) → Result (List LogReceipt)
  pub hook : Dict ℤ → ℕ → Exec S ℕ

module _ {S : Type 0} (obj : Synced S) where
  open obj use {last_update, set_last_update, update, get_logs, hook}

  -- the updates of a window, with the users changed so far
  unfoldable pub update_logs : Dict ℤ → List LogReceipt → Exec S (Dict ℤ)
  update_logs res [] = pure res
  update_logs res (log ∷ logs) = do temp ← update log; update_logs (update_all res temp) logs

  -- one round of the loop, on the window up to `to_block`
  unfoldable pub round : (from_block to_block : ℤ) → ℕ → Exec S ℕ
  unfolding update_logs
  round from_block to_block counter = do
    logs ← lift (get_logs from_block to_block)
    res ← update_logs [] logs
    modify (set_last_update to_block)
    hook res (counter + 1)

  -- the loop, on the number of rounds left
  unfoldable pub query_loop : (fuel : ℕ) → (target_block : ℤ) → ℕ → Exec S (Unit {0})
  unfolding round window_end
  query_loop zero target_block counter s = (ok tt, s)
  query_loop (suc fuel) target_block counter s =
      if ltb_ℤ (last_update s) target_block
      then (round (last_update s +ℤ pos 1) (window_end (last_update s) target_block) counter
            >>= query_loop fuel target_block)
          s
      else (ok tt, s)

  -- Each round moves the object by a block at least, so the blocks that are missing are rounds enough.
  unfoldable pub query_events_loop : (target_block : ℤ) → Exec S (Unit {0})
  unfolding query_loop
  query_events_loop target_block s =
      query_loop (pos_part (target_block -ℤ last_update s)) target_block 0 s

-- `sync_states`, at the head of the chain less a delay
unfoldable pub sync_states :
    {S : Type 0} → Synced S → (get_block_number delay : ℤ) → Exec S (Unit {0})
unfolding query_events_loop
sync_states obj get_block_number delay = query_events_loop obj (get_block_number -ℤ delay)

unfoldable pub is_market : String → List String → Bool
is_market reserve [] = false
is_market reserve (m ∷ ms) = if str_eq m reserve then true else is_market reserve ms

-- the two loops: 1 for the reserves among the markets that the user entered, and 0 for the others
unfoldable pub set_markets : List String → Dict CompReserve → Dict CompReserve
unfolding is_market
set_markets reserves_as_market [] = []
set_markets reserves_as_market ((reserve, r) ∷ rest) =
    (
      reserve,
      record r { is_col_liq = if is_market reserve reserves_as_market then pos 1 else pos 0 },
    )
    ∷ set_markets reserves_as_market rest

module _ {F : Type 0} where
  -- the states of the users as a synchronised object
  abbrev pub states_synced :
      ⦃fl : Floats F⦄
      → Eth
      → (get_logs : (from_block to_block : ℤ) → Result (List LogReceipt))
      → (hook : Dict ℤ → ℕ → Exec (States F) ℕ) → Synced (States F)
  states_synced eth get_logs hook = record {
    last_update = λ s. States.last_update s;
    set_last_update = λ b s. record s { last_update = b };
    update = update eth;
    get_logs = get_logs;
    hook = hook;
  }

  -- `reload_and_extend_states`, where `get_assets_in` is the call of the comptroller
  unfoldable pub reload_and_extend_states :
      (get_assets_in : String → List String) → Eth → String → Exec (States F) (Unit {0})
  unfolding set_markets
  reload_and_extend_states get_assets_in eth usr s = elim (lookup usr s.users_states) [
    | none ↦ (err key_error, s)
    | some u ↦ (
      ok tt,
      record s {
        users_states =
            adjust usr
              (λ v. record v {
                reserves = set_markets (get_assets_in (Eth.to_checksum_address eth usr)) v.reserves;
              })
              s.users_states;
      },
    )
  ]

  -- `user_state_extend_hook`: the markets of the users that the logs of a window changed
  unfoldable pub user_state_extend_hook :
      (get_assets_in : String → List String) → Eth → Dict ℤ → ℕ → Exec (States F) ℕ
  user_state_extend_hook get_assets_in eth res count =
      each (reload_and_extend_states get_assets_in eth) (keys res) >> pure count

-- a filter of logs: the contracts and the first topics
pub record Filter : Type 0 where
  pub address : List String
  pub topics : List String

-- the topics of `COMPOUND_V3_USERS_FILTER_TEMP`
abbrev pub users_topics : List String
users_topics =
    "0x1a2a22cb034d26d1854bdc6666a5b91fe25efbbb5dcad3b0355478d6f5c362a1"
    ∷ "0x13ed6866d4e1ee6da46f845c46d7e54120883d75c5ea9a2dacc1c4ca8984ab80"
    ∷ "0xddf252ad1be2c89b69c2b068fc378daa952ba7f163c4a11628f55a4df523b3ef"
    ∷ "0x875352fb3fadeb8c0be7cbbe8ff761b308fa7033470cd0287f02f3436fd76cb9"
    ∷ "0x4dec04e750ca11537cabcd8a9eab06494de08da3735bc8871cd41250e190bc04"
    ∷ "0xa91e67c5ea634cd43a12c5a482724b03de01e85ca68702a53d0c2f45cb7c1dc5"
    ∷ "0x3bad0c59cf2f06e7314077049f48a93578cd16f5ef92329f1dab1420a99c177e"
    ∷ "0x70483e6592cd5182d45ac970e05bc62cdcc90e9d8ef2c2dbe686cf383bcd7fc5" ∷ []

-- `gen_states_filter`: the markets' logs, and those of the plug-in
unfoldable pub gen_states_filter : Option (State ℤ) → (reserves : List String) → Filter
gen_states_filter none reserves = record { address = reserves; topics = users_topics }
gen_states_filter (some p) reserves = record {
  address = reserves ++ State.addres p;
  topics = users_topics ++ gen_topics p;
}
