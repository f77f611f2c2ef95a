-- ===== src/Sync/Kept.antt =====
-- About the loop over the log windows: a property that the updates, the hook and the block of the last
-- update preserve, it preserves.
use compound_liquidation.Prelude.{
  ℕ, zero, suc, ◌+◌, List, [], ◌∷◌, Dict, update_all, Bool-cases, inl, inr,
}
use compound_liquidation.Prelude.Int.{ℤ, pos, ◌+ℤ◌, ltb_ℤ}
use compound_liquidation.Prelude.Exec.{modify}
use compound_liquidation.Prelude.Preserves.{
  Preserves, Preserves-bind, Preserves-pure, Preserves-lift,
}
use compound_liquidation.Chain.{LogReceipt}
use compound_liquidation.Sync.{
  Synced, window_end, update_logs, round, query_loop, query_events_loop, sync_states,
}

module _ {S : Type 0} (P : S → Type 0) (obj : Synced S)
    (updated : (log : LogReceipt) → Preserves P (Synced.update obj log))
    (moved : (b : ℤ) (s : S) → P s → P (Synced.set_last_update obj b s))
    (hooked : (res : Dict ℤ) (count : ℕ) → Preserves P (Synced.hook obj res count)) where
  preserved-logs : (res : Dict ℤ) (logs : List LogReceipt) → Preserves P (update_logs obj res logs)
  unfolding update_logs
  preserved-logs res [] = Preserves-pure res
  preserved-logs res (log ∷ logs) =
      Preserves-bind (updated log) (λ temp. preserved-logs (update_all res temp) logs)

  preserved-moved : (b : ℤ) → Preserves P (modify (Synced.set_last_update obj b))
  preserved-moved b = record { at = moved b }

  preserved-round :
      (from_block to_block : ℤ) (counter : ℕ) → Preserves P (round obj from_block to_block counter)
  unfolding round
  preserved-round from_block to_block counter =
      Preserves-bind (Preserves-lift (Synced.get_logs obj from_block to_block)) (λ logs.
        Preserves-bind (preserved-logs [] logs)
          (λ res. Preserves-bind (preserved-moved to_block) (λ _. hooked res (counter + 1))))

  preserved-loop :
      (fuel : ℕ) (target : ℤ) (counter : ℕ) → Preserves P (query_loop obj fuel target counter)
  unfolding query_loop
  preserved-loop zero target counter = record { at = λ s h. h }
  preserved-loop (suc fuel) target counter = record {
    at = λ s h. elim (Bool-cases (ltb_ℤ (Synced.last_update obj s) target)) [
      | inr e ↦ rw e h
      | inl e ↦ rw e (
          Preserves.at
            (Preserves-bind
              (preserved-round (Synced.last_update obj s +ℤ pos 1)
                (window_end (Synced.last_update obj s) target) counter)
              (preserved-loop fuel target))
            s h)
    ];
  }

  pub sync_states-Preserves :
      (get_block_number delay : ℤ) → Preserves P (sync_states obj get_block_number delay)
  unfolding sync_states query_events_loop
  sync_states-Preserves get_block_number delay = record {
    at = λ s h. Preserves.at (preserved-loop _ _ 0) s h;
  }
