-- ===== src/Bot/Start.antt =====
-- The start-up in compound.py, before the tasks run: here the states from the cache files, brought up to
-- the head of the chain, with the markets completed by queries. What the contracts and the node answer is
-- the record `Node`.
pub mod Globals
pub mod Lists
pub mod Once
pub mod Reached
use compound_liquidation.Prelude.{
  ℕ, zero, suc, ◌+◌, ◌^◌, String, true, false, Option, none, some, List, [], ◌∷◌, Dict, lookup,
  adjust, keys, Result, ok, err, key_error, attribute_error, at_key, at_index, str_eq,
  if◌then◌else◌,
}
use compound_liquidation.Prelude.{◌>>=◌ as and_then}
use compound_liquidation.Prelude.Int.{ℤ, pos, ◌+ℤ◌}
use compound_liquidation.Prelude.Text.{lower}
use compound_liquidation.Prelude.Float.{Floats}
use compound_liquidation.Prelude.Exec.{Exec, pure, lift, modify, each, ◌>>=◌, ◌>>◌}
use compound_liquidation.Config.{desired_profit_scale}
use compound_liquidation.Chain.{LogReceipt}
use compound_liquidation.Events.{State, vai_state}
use compound_liquidation.Block.{init_block_infos}
use compound_liquidation.Tokens.{CtokenInfos}
use compound_liquidation.Protocol.{
  Contracts, RiskCalls, Comptroller, query_ctokens_configs, complete_ctokens, init_comet_configs,
  coin_ctoken,
}
use compound_liquidation.Comet.{CometConfigs}
use compound_liquidation.Signals.{Signals, AggregatorInfos, get_tokens_from_aggr}
use compound_liquidation.Signals.Setup.{Sources, init_signals}
use compound_liquidation.Router.Setup.{Query, init_router_pools}
use compound_liquidation.Users.{States, current_price}
use compound_liquidation.Users.Queries.{users_filtering}
use compound_liquidation.Users.Cache.{CacheFiles, cache, reload_states}
use compound_liquidation.Users.HighProfit
use compound_liquidation.Users.HighProfit.{HighProfitSates, new_high_profit, super}
use compound_liquidation.Health.{HealthResult}
use compound_liquidation.Send.{SendType, init_send_type}
use compound_liquidation.Send.Bnb48.{Bnb48}
use compound_liquidation.Sync.{
  Synced, Filter, states_synced, sync_states, gen_states_filter, user_state_extend_hook,
}
use compound_liquidation.Bot.{
  World, Outside, on_high, reads, complete_states_info, users_trimming_wrap,
}
use compound_liquidation.Bot.Logs.{clear_plug_in}
use compound_liquidation.Bot.Rounds.{simulate, numbered, set_pre_filtered}

-- what the start-up asks: the configuration, the files, the contracts, the node and the clock
pub record Node (F : Type 0) : Type 0 where
  pub users_file_status : ℕ
  pub init_block_number : ℤ
  pub files : CacheFiles F
  pub query_markets_list : Result (List String)
  -- the address of the VAI controller
  pub vai : String
  -- the head of the chain, at the three times that it is asked
  pub first_head : Result ℤ
  pub second_head : Result ℤ
  pub last_head : Result ℤ
  pub get_logs : Filter → (from_block to_block : ℤ) → Result (List LogReceipt)
  pub contracts : Contracts
  pub risk_calls : RiskCalls
  pub get_underlying_price : (ctoken_addr : String) → Result ℤ
  pub comptroller : Comptroller
  pub sources : Sources
  -- the number, the time and the base fee of the last block
  pub latest_block : Result (ℤ × ℤ × Option ℤ)
  -- the number of the secret keys
  pub accounts : ℕ
  pub bnb_gas_price : Result F
  pub query_pool : Query
  pub light_connection : Result (Unit {0})
  pub price_time : ℤ
  pub health_time : ℤ
  pub filter_time : (aggr : String) → ℤ

-- `try: m  except Exception: log`
abbrev pub caught : {S : Type 0} → Exec S (Unit {0}) → Exec S (Unit {0})
caught m s = (ok tt, (m s).1)

module _ {F : Type 0} where
  abbrev pub on_ctokens : Exec (Dict CtokenInfos) (Unit {0}) → Exec (States F) (Unit {0})
  on_ctokens m s = let (r, c) = m s.ctokens in (r, record s { ctokens = c })

  -- the VAI debt of one user of the plug-in; a user that the states have not raises
  unfoldable pub init_vai_repay : Outside F → String → Exec (States F) (Unit {0})
  init_vai_repay out usr = lift (Outside.query_user_vai_repay out usr) >>= (λ vai_repay s.
      elim (lookup usr s.users_states) [
        | none ↦ (err key_error, s)
        | some u ↦ (
          ok tt,
          record s {
            users_states = adjust usr (λ v. record v { vai_repay = vai_repay }) s.users_states;
          },
        )
      ])

module _ {F : Type 0} ⦃fl : Floats F⦄ where
  unfoldable pub init_users : Outside F → Option (State ℤ) → Exec (States F) (Unit {0})
  unfolding init_vai_repay
  init_users out none s = (ok tt, s)
  init_users out (some p) s =
      (each (init_vai_repay out) (keys (State.storage p)) >> modify clear_plug_in) s

  unfoldable pub init_plug_in : Outside F → Exec (States F) (Unit {0})
  unfolding init_users
  init_plug_in out s = init_users out (States.plug_in s) s

  -- `sync_states`, at the head of the chain, where the node gives it
  unfoldable pub sync_users_states :
      Node F
      → Outside F
      → (reserves : List String) → Result ℤ
      → (delay : ℤ) → Exec (States F) (Unit {0})
  unfolding sync_states gen_states_filter user_state_extend_hook
  sync_users_states node out reserves head delay s =
      (lift head >>= (λ block_number.
          sync_states
            (states_synced (Outside.eth out)
              (Node.get_logs node (gen_states_filter (States.plug_in s) reserves))
              (user_state_extend_hook (Outside.get_assets_in out) (Outside.eth out)))
            block_number delay))
        s

  -- the states, from the files to the completed markets
  unfoldable pub init_states :
      Node F → Outside F → (reserves : List String) → Exec (States F) (Unit {0})
  unfolding sync_users_states init_plug_in cache complete_ctokens
  init_states node out reserves =
      modify (λ s. record s { plug_in = some (vai_state (Node.vai node)) })
      >> (caught (sync_users_states node out reserves (Node.first_head node) (pos 100))
          >> (init_plug_in out
              >> (modify (λ s. (cache s).1)
                  >> (sync_users_states node out reserves (Node.second_head node) (pos 0)
                      >> on_ctokens (
                          complete_ctokens (query_ctokens_configs (Node.contracts node))
                            (Node.risk_calls node) (Node.get_underlying_price node)
                            (Node.price_time node) reserves)))))
