-- ===== src/Tests/Windows.antt =====
-- The theorems on the loop over the windows of logs, for the states of a user.
use compound_liquidation.Prelude.{ℕ, ◌≡◌, refl, List, [], ◌∷◌, ok}
use compound_liquidation.Prelude.Int.{pos}
use compound_liquidation.Sync.{Synced, query_events_loop}
use compound_liquidation.Sync.Reach.{Tracks, Reaches, query_events_loop-Reaches}
use compound_liquidation.Sync.Windows.{Covers, rounds, query_events_loop-windows}
use compound_liquidation.Users.{States}
use compound_liquidation.Bot.Blocks.Synced.{synced_users, users-Tracks}
use compound_liquidation.Samples.{
  Milli, milli_floats, market, eth_sample, log_sample, states_sample,
}

abbrev synced_sample : Synced (States Milli)
synced_sample =
    synced_users (λ usr. market ∷ []) eth_sample (λ from_block to_block. ok (log_sample ∷ []))

sample-Tracks : Tracks synced_sample
sample-Tracks =
    users-Tracks (λ usr. market ∷ []) eth_sample (λ from_block to_block. ok (log_sample ∷ []))

query_events_loop-windows_example :
    (windows : List (ℕ × ℕ)) × Covers 0 5000 windows
    × (query_events_loop synced_sample (pos 5000) states_sample
        ≡ rounds synced_sample windows 0 states_sample)
query_events_loop-windows_example =
    query_events_loop-windows synced_sample sample-Tracks 0 5000 states_sample refl

query_events_loop-Reaches_example :
    Reaches synced_sample
      (pos 5000)
      (pos 0)
      (query_events_loop synced_sample (pos 5000) states_sample)
query_events_loop-Reaches_example =
    query_events_loop-Reaches synced_sample sample-Tracks (pos 5000) states_sample
