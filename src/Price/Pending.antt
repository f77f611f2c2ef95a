-- ===== src/Price/Pending.antt =====
-- About series of pending price signals, the confirmed price and the timeout.
use compound_liquidation.Prelude.{◌≡◌, refl, true, List, [], ◌∷◌, arith, ◌*◌, if◌then◌else◌}
use compound_liquidation.Prelude.Int.{ℤ, pos, ◌+ℤ◌, ltb_ℤ}
use compound_liquidation.Config.{intvl}
use compound_liquidation.Price.{CtokenPrice, update, revert}

-- signals in the order of arrival, each a new price and its time
unfoldable pub updates : List (ℤ × ℤ) → CtokenPrice → CtokenPrice
updates [] p = p
updates ((price, time) ∷ l) p = updates l (update price time p)

-- What a price goes back to: itself while it is confirmed, and the cached one while it is pending.
abbrev pub confirmed_price : CtokenPrice → ℤ
confirmed_price p = if p.is_comfired then p.price_current else p.price_cache

confirmed_price-updates :
    (l : List (ℤ × ℤ)) (p : CtokenPrice) → confirmed_price (updates l p) ≡ confirmed_price p
unfolding updates update
confirmed_price-updates [] p = refl
confirmed_price-updates ((price, time) ∷ l) p = confirmed_price-updates l (update price time p)

-- After any series of pending signals, the timeout check leaves the last signal's price pending
-- within fifteen seconds of it, and after that restores the price that was confirmed before the
-- series.
pub revert-updates :
    (l : List (ℤ × ℤ)) (price time now : ℤ) (p : CtokenPrice)
    → let q = revert now (update price time (updates l p)) in
      let late = ltb_ℤ (time +ℤ pos (intvl * 5)) now in
      (q.price_current ≡ (if late then confirmed_price p else price)) × (q.is_comfired ≡ late)
unfolding update revert
revert-updates l price time now p = ground (arith, confirmed_price-updates l p)

-- The check does nothing to a confirmed price, so a second check in a row does nothing.
pub revert-revert :
    (now later : ℤ) (p : CtokenPrice)
    → (revert now p).is_comfired ≡ true
    → revert later (revert now p) ≡ revert now p
unfolding revert
revert-revert now later p h = ground arith
