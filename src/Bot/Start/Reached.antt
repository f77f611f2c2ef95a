-- ===== src/Bot/Start/Reached.antt =====
-- About the start-up of compound.py and the series of callbacks after it: the users of the states and
-- of the lists near liquidation.
use mathlib.Core.Path.{subst}
use compound_liquidation.Prelude.{
  ℕ, ok, err, ok_injective, >>=-eq-ok, String, Dict, List, [], keys, none, ◌≡◌, Result,
}
use compound_liquidation.Prelude.Int.{ℤ, pos}
use compound_liquidation.Prelude.Float.{Floats}
use compound_liquidation.Prelude.Exec.{Exec, modify}
use compound_liquidation.Prelude.Preserves.{
  Preserves, Preserves-bind, Preserves-pure, Preserves-lift, Preserves-reads, Preserves-each,
}
use compound_liquidation.Signals.{Signals, get_tokens_from_aggr}
use compound_liquidation.Protocol.{init_comet_configs, coin_ctoken}
use compound_liquidation.Users.{States, current_price}
use compound_liquidation.Users.Once.{HasOnce}
use compound_liquidation.Users.Cache.{reload_states}
use compound_liquidation.Users.Cache.Once.{reload_states-HasOnce, filter_states-IsDistinct}
use compound_liquidation.Users.HighProfit.{HighProfitSates, new_high_profit}
use compound_liquidation.Users.HighProfit.Once.{HighOnce, HighOnce-update}
use compound_liquidation.Health.{HealthResult}
use compound_liquidation.Sync.{Filter, Synced, gen_states_filter}
use compound_liquidation.Sync.Kept.{sync_states-Preserves}
use compound_liquidation.Bot.{World, Outside, on_high, complete_states_info, health_of}
use compound_liquidation.Bot.Rounds.{Message, simulate, numbered}
use compound_liquidation.Bot.Series.{Event, run}
use compound_liquidation.Bot.Nearby.Idle.{IsReached, write-IsReached, filter_into-IsReached}
use compound_liquidation.Bot.Nearby.Reached.{run-IsReached}
use compound_liquidation.Bot.Start.{Node, init_states}
use compound_liquidation.Bot.Start.Globals.{
  init_globals, init_accounts, init_sender, price_send_type,
}
use compound_liquidation.Send.{init_send_type}
use compound_liquidation.Router.Setup.{init_router_pools}
use compound_liquidation.Signals.Setup.{init_signals}
use compound_liquidation.Bot.Start.Lists.{
  returned, pre_set, take_high_profit, prefilter, prefilter_all, high_synced, sync_high,
  init_users_lists, start,
}
use compound_liquidation.Bot.Start.Once.{once-hook, once-init_states}

at_return :
    {S : Type 0} (P : S → Type 0) (m : Result (Unit {0}) × S) (s : S)
    → returned m ≡ ok s
    → P m.1
    → P s
at_return P (ok u, t) s e p = subst P (ok_injective t s e) p
at_return P (err x, t) s e p = cc

module _ {F : Type 0} ⦃fl : Floats F⦄ where
  module _ (node : Node F) (out : Outside F) where
    IsReached-states_info :
        Preserves (IsReached {F = F}) (complete_states_info (Node.health_time node))
    unfolding complete_states_info
    IsReached-states_info =
        Preserves-bind
          (Preserves-reads
            (λ (w : World F). health_of (Node.health_time node) (keys w.states.users_states) w))
          (λ results. Preserves-bind (write-IsReached results) (λ _. Preserves-pure results))

    IsReached-simulate :
        (results : List (String × HealthResult F)) → Preserves IsReached (simulate out none results)
    IsReached-simulate results = record { at = λ w h. h }

    IsReached-pre_set :
        (results : List (HealthResult F)) → Preserves IsReached (pre_set node out results)
    unfolding pre_set
    IsReached-pre_set results = Preserves-bind (Preserves-lift (Node.light_connection node)) (λ _.
        Preserves-bind (IsReached-simulate (numbered (Outside.unique_id out) 0 results))
          (λ _. Preserves-pure tt))

    IsReached-high_profit : Preserves (IsReached {F = F}) (modify take_high_profit)
    unfolding take_high_profit new_high_profit
    IsReached-high_profit = record {
      at = λ w h. (filter_states-IsDistinct w.states.users_states _ h.0, h.1);
    }

    IsReached-prefilter : (aggr : String) → Preserves IsReached (prefilter node aggr)
    unfolding prefilter
    IsReached-prefilter aggr =
        Preserves-bind (Preserves-reads (λ (w : World F). get_tokens_from_aggr w.signals aggr))
          (λ found. filter_into-IsReached (Node.filter_time node aggr) found.0 aggr)

    IsReached-prefilter_all : Preserves IsReached (prefilter_all node)
    unfolding prefilter_all
    IsReached-prefilter_all = record {
      at = λ w h.
          Preserves.at
            (Preserves-each IsReached-prefilter (keys (Signals.signal_token_map w.signals))) w h;
    }

    high-hook :
        (filt : Filter) (res : Dict ℤ) (count : ℕ)
        → Preserves HighOnce (Synced.hook (high_synced node out filt) res count)
    high-hook filt res count = record { at = λ h p. Preserves.at (once-hook out res count) h.0 p }

    IsReached-on_high :
        {m : Exec (States F × HighProfitSates F) (Unit {0})}
        → Preserves HighOnce m
        → Preserves IsReached (on_high m)
    IsReached-on_high h = record { at = λ w p. (Preserves.at h (w.states, w.high) p.0, p.1) }

    IsReached-sync_high : Preserves IsReached (sync_high node out)
    unfolding sync_high
    IsReached-sync_high = record {
      at = λ w h.
          let filt = gen_states_filter (States.plug_in w.states) (Outside.reserves_init out) in
          Preserves.at
            (Preserves-bind (Preserves-lift (Node.last_head node)) (λ block_number.
              IsReached-on_high (
                sync_states-Preserves HighOnce (high_synced node out filt)
                  (HighOnce-update (Outside.eth out)) (λ b v q. q) (high-hook filt) block_number
                  (pos 0))))
            w h;
    }

    IsReached-users_lists : Preserves IsReached (init_users_lists node out)
    unfolding init_users_lists
    IsReached-users_lists = Preserves-bind IsReached-states_info (λ results.
        Preserves-bind (IsReached-pre_set results) (λ _.
          Preserves-bind IsReached-high_profit
            (λ _. Preserves-bind IsReached-prefilter_all (λ _. IsReached-sync_high))))

  module _ (node : Node F) (out : Outside F) where
    globals-IsReached :
        (reserves : List String) (states : States F) (globals : Outside F × World F)
        → init_globals node out reserves states ≡ ok globals
        → HasOnce states
        → IsReached globals.1
    unfolding init_globals
    globals-IsReached reserves states globals e h =
        let (comet, c, e1) =
          >>=-eq-ok (init_comet_configs (Node.comptroller node) reserves states.last_update) _ e in
        let (signals, c1, e2) =
          >>=-eq-ok (init_signals (Node.sources node) reserves states.ctokens) _ e1 in
        let (block, c2, e3) = >>=-eq-ok (Node.latest_block node) _ e2 in
        let (nonces, c3, e4) =
          >>=-eq-ok (init_accounts (Outside.transaction_count out) 0 (Node.accounts node)) _ e3 in
        let (price, c4, e5) = >>=-eq-ok (current_price states.ctokens coin_ctoken) _ e4 in
        let (sender, c5, e6) = >>=-eq-ok (init_sender node out price) _ e5 in
        let (send_type, c6, e7) = >>=-eq-ok (price_send_type signals (init_send_type "BSC")) _ e6 in
        let pools = init_router_pools (Node.query_pool node) reserves states.ctokens [] in
        let (found, c7, e8) = >>=-eq-ok (pools.0) _ e7 in
        subst (λ g. IsReached g.1) (ok_injective _ globals e8) (h, tt)

    started-IsReached :
        (globals : Outside F × World F) → start node out ≡ ok globals → IsReached globals.1
    unfolding start
    started-IsReached globals e =
        let (reserves, c, e1) = >>=-eq-ok (Node.query_markets_list node) _ e in
        let (loaded, c1, e2) =
          >>=-eq-ok
            (reload_states (Node.users_file_status node) (Node.init_block_number node) reserves
              (Node.files node))
            _ e1 in
        let once =
          reload_states-HasOnce (Node.users_file_status node) (Node.init_block_number node) reserves
            (Node.files node) loaded c1 in
        let (states, c2, e3) = >>=-eq-ok (returned (init_states node out reserves loaded)) _ e2 in
        let kept =
          at_return HasOnce _ states c2
            (Preserves.at (once-init_states node out reserves) loaded once) in
        let (first, c3, e4) = >>=-eq-ok (init_globals node out reserves states) _ e3 in
        let (world, c4, e5) = >>=-eq-ok (returned (init_users_lists node first.0 first.1)) _ e4 in
        let made = globals-IsReached reserves states first c3 kept in
        subst (λ g. IsReached g.1) (ok_injective _ globals e5)
          (at_return IsReached _ world c4
            (Preserves.at (IsReached-users_lists node first.0) first.1 made))

    -- Where the start-up returns the globals, and a series of callbacks follows, each of which
    -- returns or raises: the states hold no user twice and no list of users near liquidation does.
    pub start-IsReached :
        (raw_of : Message → Result String) (es : List Event) (globals : Outside F × World F)
        → start node out ≡ ok globals
        → IsReached (run globals.0 raw_of es globals.1)
    start-IsReached raw_of es globals e =
        run-IsReached globals.0 raw_of es globals.1 (started-IsReached globals e)
