-- ===== src/Bot/Blocks/Synced.antt =====
-- About the states of the users as the synchronisation takes them, with the hook of configs/users.py.
use compound_liquidation.Prelude.{String, List, keys, refl, Result}
use compound_liquidation.Prelude.Int.{ℤ}
use compound_liquidation.Prelude.Float.{Floats}
use compound_liquidation.Prelude.Keeps.{Keeps, Keeps-bind, Keeps-pure, Keeps-each, Keeps-map}
use compound_liquidation.Chain.{Eth, LogReceipt}
use compound_liquidation.Users.{States}
use compound_liquidation.Users.Block.{block-update}
use compound_liquidation.Sync.{
  Synced, states_synced, reload_and_extend_states, user_state_extend_hook,
}
use compound_liquidation.Sync.Reach.{Tracks}
use compound_liquidation.Bot.Blocks.Parts.{block-reload}

module _ {F : Type 0} ⦃fl : Floats F⦄ (get_assets_in : String → List String) (eth : Eth)
    (get_logs : (from_block to_block : ℤ) → Result (List LogReceipt)) where
  reload-block :
      (usr : String)
      → Keeps (λ (s : States F). s.last_update) (reload_and_extend_states get_assets_in eth usr)
  reload-block usr = Keeps-map (λ b. b.0) (block-reload get_assets_in eth usr)

  abbrev pub synced_users : Synced (States F)
  synced_users = states_synced eth get_logs (user_state_extend_hook get_assets_in eth)

  pub users-Tracks : Tracks synced_users
  unfolding user_state_extend_hook
  users-Tracks = record {
    last-set = λ b s. refl;
    updated = λ log. block-update eth log;
    hooked =
        λ res counter. Keeps-bind (Keeps-each reload-block (keys res)) (λ _. Keeps-pure counter);
  }
