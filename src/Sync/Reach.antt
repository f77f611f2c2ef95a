-- ===== src/Sync/Reach.antt =====
-- About the loop over the log windows, query_events_loop, and the block where it ends.
use mathlib.Core.Path.{subst}
use compound_liquidation.Prelude.{
  ℕ, zero, suc, ◌+◌, ◌≤◌, ◌≡◌, refl, ◌∙◌, true, List, [], ◌∷◌, Dict, ok, arith, Bool-cases, inl,
  inr, if◌then◌else◌, update_all, ◌⊎◌, err, Error, Result, sym,
}
use compound_liquidation.Prelude.Int.{
  ℤ, pos, pos_part, ◌+ℤ◌, ◌-ℤ◌, ◌≤ℤ◌, ltb_ℤ, -ℤ_parts, +ℤ_parts, eq_of_parts,
}
use compound_liquidation.Prelude.Exec.{Exec, lift, modify, continue, Returns, bind-Returns, ◌>>=◌}
use compound_liquidation.Prelude.Keeps.{Keeps, Keeps-bind, Keeps-pure}
use compound_liquidation.Prelude.Preserves.{Preserves, Preserves-bind, Preserves-lift}
use compound_liquidation.Chain.{LogReceipt}
use compound_liquidation.Sync.{
  Synced, window_end, update_logs, round, query_loop, query_events_loop,
}

-- The updates and the hook leave the block of the last update to the loop, whether they return or raise.
pub record Tracks {S : Type 0} (obj : Synced S) : Type 0 where
  pub last-set : (b : ℤ) (s : S) → Synced.last_update obj (Synced.set_last_update obj b s) ≡ b
  pub updated : (log : LogReceipt) → Keeps (Synced.last_update obj) (Synced.update obj log)
  pub hooked :
      (res : Dict ℤ) (counter : ℕ) → Keeps (Synced.last_update obj) (Synced.hook obj res counter)

pub window_bounds :
    (last target : ℤ)
    → ltb_ℤ last target ≡ true
    → (window_end last target ≤ℤ target) × (last +ℤ pos 1 ≤ℤ window_end last target)
unfolding window_end
window_bounds last target h =
    let first = +ℤ_parts last (pos 1) in
    let final = +ℤ_parts (last +ℤ pos 1) (pos 1999) in (ground arith, ground arith)

out_of_fuel :
    (last target : ℤ)
    → pos_part (target -ℤ last) ≤ 0
    → last ≡ (if ltb_ℤ last target then target else last)
out_of_fuel last target h = ground (arith, -ℤ_parts target last)

pub less_fuel :
    (last to_block target : ℤ) (fuel : ℕ)
    → pos_part (target -ℤ last) ≤ suc fuel
    → last +ℤ pos 1 ≤ℤ to_block
    → to_block ≤ℤ target
    → pos_part (target -ℤ to_block) ≤ fuel
unfolding ◌-ℤ◌
less_fuel last to_block target fuel enough above below = ground (arith, +ℤ_parts last (pos 1))

at_target :
    (to_block target : ℤ)
    → to_block ≤ℤ target
    → (if ltb_ℤ to_block target then target else to_block) ≡ target
at_target to_block target h = elim (Bool-cases (ltb_ℤ to_block target)) [
  | inl e ↦ rw e refl
  | inr e ↦ rw e (eq_of_parts to_block target (ground arith))
]

below_all : (last to_block target : ℤ) → last +ℤ pos 1 ≤ℤ to_block → last ≤ℤ to_block
below_all last to_block target h = ground (arith, +ℤ_parts last (pos 1))

module _ {S : Type 0} (obj : Synced S) where
  -- It returns at the target, or stays where it was above it, or raises on the way to the target.
  abbrev pub Reaches : (target last : ℤ) → Result (Unit {0}) × S → Type 0
  Reaches target last end =
      ((end.0 ≡ ok tt)
        × (Synced.last_update obj end.1 ≡ (if ltb_ℤ last target then target else last)))
      ⊎ ((e : Error) × (end.0 ≡ err e)
          × (last ≤ℤ Synced.last_update obj end.1)
          × (Synced.last_update obj end.1 ≤ℤ target))

module _ {S : Type 0} (obj : Synced S) (tracks : Tracks obj) where
  open obj use {last_update, set_last_update, update, get_logs, hook}

  -- Where a round returns, the block of the last update is the end of its window.
  pub round-Returns :
      (from_block to_block : ℤ) (counter : ℕ) (s : S)
      → Returns (λ t. last_update t ≡ to_block) (round obj from_block to_block counter) s
  unfolding round
  round-Returns from_block to_block counter s =
      let at_end = λ (t : S). last_update t ≡ to_block in
      bind-Returns at_end (lift (get_logs from_block to_block)) _ s (λ logs e.
        bind-Returns at_end (update_logs obj [] logs) _ s (λ res e'.
          let t = (update_logs obj [] logs s).1 in
          bind-Returns at_end (modify (set_last_update to_block)) (λ _. hook res (counter + 1)) t
            (λ u e'' n done.
              Keeps.at (tracks.hooked res (counter + 1)) (set_last_update to_block t)
              ∙ tracks.last-set to_block t)))

  logs-Keeps :
      (res : Dict ℤ) (logs : List LogReceipt) → Keeps last_update (update_logs obj res logs)
  unfolding update_logs
  logs-Keeps res [] = Keeps-pure res
  logs-Keeps res (log ∷ logs) =
      Keeps-bind (tracks.updated log) (λ temp. logs-Keeps (update_all res temp) logs)

  -- the block of the last update stands between two blocks
  abbrev IsBetween : (low high : ℤ) → S → Type 0
  IsBetween low high s = (low ≤ℤ last_update s) × (last_update s ≤ℤ high)

  IsBetween-Keeps :
      (low high : ℤ) {A : Type 0} {m : Exec S A}
      → Keeps last_update m
      → Preserves (IsBetween low high) m
  IsBetween-Keeps low high h = record {
    at = λ s p. subst (λ b. (low ≤ℤ b) × (b ≤ℤ high)) (sym (Keeps.at h s)) p;
  }

  IsBetween-moved :
      (low high to_block : ℤ)
      → low ≤ℤ to_block
      → to_block ≤ℤ high
      → Preserves (IsBetween low high) (modify (set_last_update to_block))
  IsBetween-moved low high to_block h k = record {
    at = λ s p. subst (λ b. (low ≤ℤ b) × (b ≤ℤ high)) (sym (tracks.last-set to_block s)) (h, k);
  }

  round-IsBetween :
      (low high from_block to_block : ℤ) (counter : ℕ)
      → low ≤ℤ to_block
      → to_block ≤ℤ high
      → Preserves (IsBetween low high) (round obj from_block to_block counter)
  unfolding round
  round-IsBetween low high from_block to_block counter h k =
      Preserves-bind (Preserves-lift (get_logs from_block to_block)) (λ logs.
        Preserves-bind (IsBetween-Keeps low high (logs-Keeps [] logs)) (λ res.
          Preserves-bind (IsBetween-moved low high to_block h k)
            (λ _. IsBetween-Keeps low high (tracks.hooked res (counter + 1)))))

  Reaches-later :
      (target last to_block : ℤ) (end : Result (Unit {0}) × S)
      → ltb_ℤ last target ≡ true
      → to_block ≤ℤ target
      → last ≤ℤ to_block
      → Reaches obj target to_block end
      → Reaches obj target last end
  Reaches-later target last to_block end e below above (inl (done, at)) =
      inl (done, rw e (at ∙ at_target to_block target below))
  Reaches-later target last to_block end e below above (inr (x, raised, low, high)) =
      inr (x, raised, omega arith, high)

  -- the rest of the loop after a round
  after_round :
      (target last to_block : ℤ) (r : Result ℕ) (t : S) (f : ℕ → Exec S (Unit {0}))
      → ltb_ℤ last target ≡ true
      → to_block ≤ℤ target
      → last ≤ℤ to_block
      → IsBetween last target t
      → ((n : ℕ) → r ≡ ok n → Reaches obj target to_block (f n t))
      → Reaches obj target last (continue r t f)
  after_round target last to_block (ok n) t f e below above between h =
      Reaches-later target last to_block (f n t) e below above (h n refl)
  after_round target last to_block (err x) t f e below above between h =
      inr (x, refl, between.0, between.1)

  pub query_loop-step :
      (fuel counter : ℕ) (target : ℤ) (s : S)
      → ltb_ℤ (last_update s) target ≡ true
      → query_loop obj (suc fuel) target counter s
        ≡ (round obj (last_update s +ℤ pos 1) (window_end (last_update s) target) counter
              >>= query_loop obj fuel target)
            s
  unfolding query_loop
  query_loop-step fuel counter target s e = rw e refl

  query_loop-Reaches :
      (fuel : ℕ) (target : ℤ) (counter : ℕ) (s : S)
      → pos_part (target -ℤ last_update s) ≤ fuel
      → Reaches obj target (last_update s) (query_loop obj fuel target counter s)
  unfolding query_loop
  query_loop-Reaches zero target counter s enough =
      inl (refl, out_of_fuel (last_update s) target enough)
  query_loop-Reaches (suc fuel) target counter s enough =
      let last = last_update s in
      elim (Bool-cases (ltb_ℤ last target)) [
        | inr e ↦ rw e (inl (refl, refl))
        | inl e ↦
            let to_block = window_end last target in
            let (below, above) = window_bounds last target e in
            let reached = below_all last to_block target above in
            let (r, t) = round obj (last +ℤ pos 1) to_block counter s in
            let start : IsBetween last target s = (omega arith, ground arith) in
            let during =
              Preserves.at
                (round-IsBetween last target (last +ℤ pos 1) to_block counter reached below) s
                start in
            subst (Reaches obj target last) (sym (query_loop-step fuel counter target s e)) (
              after_round target last to_block r t (query_loop obj fuel target) e below reached
                during
                (λ n done.
                  let moved = round-Returns (last +ℤ pos 1) to_block counter s n done in
                  subst (λ b. Reaches obj target b (query_loop obj fuel target n t)) moved
                    (query_loop-Reaches fuel target n t
                      (rw moved (less_fuel last to_block target fuel enough above below)))))
      ]

  -- Where the updates and the hook leave the block of the last update to the loop, whether they
  -- return or raise: query_events_loop returns with that block at the target, or where it was if
  -- it was not below the target, or it raises with that block no lower than it was and not above
  -- the target.
  pub query_events_loop-Reaches :
      (target : ℤ) (s : S) → Reaches obj target (last_update s) (query_events_loop obj target s)
  unfolding query_events_loop
  query_events_loop-Reaches target s = query_loop-Reaches _ target 0 s (omega arith)
