-- ===== src/Bot/Start/Lists.antt =====
-- The rest of the start-up of compound.py: the health factors of all users, the rehearsal of their
-- liquidations, the lists of users near liquidation, and the whole start-up.
use compound_liquidation.Prelude.{String, true, none, List, keys, Result, ok, err}
use compound_liquidation.Prelude.{◌>>=◌ as and_then}
use compound_liquidation.Prelude.Int.{pos, ◌+ℤ◌}
use compound_liquidation.Prelude.Float.{Floats}
use compound_liquidation.Prelude.Exec.{Exec, pure, lift, modify, each, ◌>>=◌, ◌>>◌}
use compound_liquidation.Config.{desired_profit_scale}
use compound_liquidation.Signals.{Signals, get_tokens_from_aggr}
use compound_liquidation.Users.{States}
use compound_liquidation.Users.Queries.{users_filtering}
use compound_liquidation.Users.Cache.{reload_states}
use compound_liquidation.Users.HighProfit
use compound_liquidation.Users.HighProfit.{HighProfitSates, new_high_profit, super}
use compound_liquidation.Health.{HealthResult}
use compound_liquidation.Sync.{
  Synced, Filter, sync_states, gen_states_filter, user_state_extend_hook,
}
use compound_liquidation.Bot.{
  World, Outside, on_high, reads, complete_states_info, users_trimming_wrap,
}
use compound_liquidation.Bot.Rounds.{simulate, numbered, set_pre_filtered}
use compound_liquidation.Bot.Start.{Node, init_states}
use compound_liquidation.Bot.Start.Globals.{init_globals}

-- what is returned, with the state
abbrev pub returned : {S : Type 0} → Result (Unit {0}) × S → Result S
returned (ok u, s) = ok s
returned (err e, s) = err e

module _ {F : Type 0} ⦃fl : Floats F⦄ where
  -- `pre_set`: the liquidations of all users, as a rehearsal, which signs but sends nothing
  unfoldable pub pre_set : Node F → Outside F → List (HealthResult F) → Exec (World F) (Unit {0})
  pre_set node out results =
      lift (Node.light_connection node)
      >> (simulate out none (numbered (Outside.unique_id out) 0 results) >> pure tt)

  -- `states = HighProfitSates(states, DESIRED_PROFIT_SCALE)`
  unfoldable pub take_high_profit : World F → World F
  unfolding new_high_profit
  take_high_profit w =
      let (own, high) = new_high_profit w.states (pos desired_profit_scale) in
      record w { states = own; high = high }

  -- the list of one aggregator
  unfoldable pub prefilter : Node F → (aggr : String) → Exec (World F) (Unit {0})
  prefilter node aggr = do
    found ← reads (λ w. get_tokens_from_aggr w.signals aggr)
    users ← reads (λ w. ok (users_filtering w.states found.0))
    users_trim ← reads (users_trimming_wrap users (Node.filter_time node aggr +ℤ pos 1200) true)
    set_pre_filtered aggr users_trim

  unfoldable pub prefilter_all : Node F → Exec (World F) (Unit {0})
  unfolding prefilter
  prefilter_all node w = each (prefilter node) (keys (Signals.signal_token_map w.signals)) w

  -- the high-profit states as a synchronised object
  abbrev pub high_synced : Node F → Outside F → Filter → Synced (States F × HighProfitSates F)
  high_synced node out filt = record {
    last_update = λ h. States.last_update h.0;
    set_last_update = λ b h. (record (h.0) { last_update = b }, h.1);
    update = HighProfit.update (Outside.eth out);
    get_logs = Node.get_logs node filt;
    hook = λ res count.
        super (user_state_extend_hook (Outside.get_assets_in out) (Outside.eth out) res count);
  }

  unfoldable pub sync_high : Node F → Outside F → Exec (World F) (Unit {0})
  unfolding sync_states gen_states_filter user_state_extend_hook
  sync_high node out w =
      let filt = gen_states_filter (States.plug_in w.states) (Outside.reserves_init out) in
      (lift (Node.last_head node) >>= (λ block_number.
          on_high (sync_states (high_synced node out filt) block_number (pos 0))))
        w

  -- the lists of users near liquidation, and the last blocks
  unfoldable pub init_users_lists : Node F → Outside F → Exec (World F) (Unit {0})
  unfolding complete_states_info pre_set take_high_profit prefilter_all sync_high
  init_users_lists node out = do
    results ← complete_states_info (Node.health_time node)
    pre_set node out results
    modify take_high_profit
    prefilter_all node
    sync_high node out

  -- the start-up: the globals, or the error that ends the program
  unfoldable pub start : Node F → Outside F → Result (Outside F × World F)
  unfolding reload_states init_states init_globals init_users_lists
  start node out = and_then (Node.query_markets_list node) (λ reserves.
      and_then
        (reload_states (Node.users_file_status node) (Node.init_block_number node) reserves
          (Node.files node))
        (λ loaded. and_then (returned (init_states node out reserves loaded)) (λ states.
          and_then (init_globals node out reserves states) (λ globals.
            and_then (returned (init_users_lists node globals.0 globals.1))
              (λ world. ok (globals.0, world))))))
