-- ===== src/Subscriptions/Pending.antt =====
-- About get_pending_transactions_light: how many connections it makes.
use compound_liquidation.Prelude.{
  ℕ, zero, suc, ◌+◌, true, false, List, [], ◌∷◌, leb, if◌then◌else◌, ◌≡◌, refl, arith, length, take,
}
use compound_liquidation.Prelude.Exec.{Exec}
use compound_liquidation.Subscriptions.{
  waiting, stopped, Stream, take_stream, get_pending_transactions_light,
}

module _ {S T : Type 0} (callback : T → Exec S (Unit {0})) where
  -- the states of one connection after the other
  unfoldable pub after_streams : List (Stream T) → S → S
  after_streams [] s = s
  after_streams (first ∷ connections) s = after_streams connections (take_stream callback first s)

  pending_from :
      (left counter : ℕ) (connections : List (Stream T)) (s : S)
      → counter + suc left ≡ 3
      → get_pending_transactions_light callback counter connections s ≡ (
        if leb (suc left) (length connections) then stopped else waiting,
        after_streams (take (suc left) connections) s,
      )
  unfolding get_pending_transactions_light after_streams
  pending_from left counter [] s h =
      let none_left : leb (suc left) 0 ≡ false = ground arith in rw none_left refl
  pending_from zero counter (first ∷ connections) s h =
      let last : leb 3 (suc counter) ≡ true = ground arith in
      let some_left : leb 1 (suc (length connections)) ≡ true = ground arith in
      rw (last, some_left) refl
  pending_from (suc left) counter (first ∷ connections) s h =
      let more : leb 3 (suc counter) ≡ false = ground arith in
      let same : leb (suc (suc left)) (suc (length connections))
          ≡ leb (suc left) (length connections) =
        ground arith in
      rw (more, same)
        (pending_from left (suc counter) connections (take_stream callback first s) (omega arith))

-- get_pending_transactions_light raises after three connections and waits where there are fewer,
-- and the state is that of the first three connections taken one after the other.
pub get_pending_transactions_light-streams :
    {S T : Type 0} (callback : T → Exec S (Unit {0})) (connections : List (Stream T)) (s : S)
    → get_pending_transactions_light callback 0 connections s ≡ (
      if leb 3 (length connections) then stopped else waiting,
      after_streams callback (take 3 connections) s,
    )
get_pending_transactions_light-streams callback connections s =
    pending_from callback 2 0 connections s refl
