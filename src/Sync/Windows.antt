-- ===== src/Sync/Windows.antt =====
-- About the windows of blocks that query_events_loop asks for.
use compound_liquidation.Prelude.{
  ℕ, zero, suc, ◌+◌, ◌-◌, ◌≤◌, ◌<◌, ◌≡◌, refl, ◌∙◌, true, List, [], ◌∷◌, Result, ok, err, arith,
  Bool-cases, inl, inr,
}
use compound_liquidation.Prelude.Int.{pos, pos_part, ◌-ℤ◌, ltb_ℤ, +ℤ-pos, -ℤ_parts}
use compound_liquidation.Prelude.Exec.{Exec, pure, continue, ◌>>=◌}
use compound_liquidation.Sync.{Synced, window_end, round, query_loop, query_events_loop}
use compound_liquidation.Sync.Reach.{Tracks, round-Returns, query_loop-step}

-- The windows, each from its first block to its last, cover the blocks after `a` up to `t`: the first
-- begins after `a`, each begins where the one before it ends, none has more than 2000 blocks or goes
-- beyond `t`, and the last ends there.
abbrev pub Covers : (a t : ℕ) → List (ℕ × ℕ) → Type 0
Covers a t [] = t ≤ a
Covers a t ((first, last) ∷ windows) =
    (first ≡ a + 1) × (first ≤ last) × (last ≤ t) × (last < first + 2000) × Covers last t windows

window_of :
    (a t : ℕ)
    → a < t
    → (b : ℕ) × (window_end (pos a) (pos t) ≡ pos b) × (a < b) × (b ≤ t) × (b < a + 1 + 2000)
unfolding window_end
window_of a t h = elim (Bool-cases (ltb_ℤ (pos t) (pos (a + 1 + 1999)))) [
  | inl e ↦
      (t, rw (window_end, +ℤ-pos a 1, +ℤ-pos (a + 1) 1999, e) refl, h, omega arith, ground arith)
  | inr e ↦ (
    a + 1 + 1999,
    rw (window_end, +ℤ-pos a 1, +ℤ-pos (a + 1) 1999, e) refl,
    omega arith,
    ground arith,
    omega arith,
  )
]

continue-same :
    {S A B : Type 0} (r : Result A) (s : S) (f g : A → Exec S B)
    → ((a : A) → r ≡ ok a → f a s ≡ g a s)
    → continue r s f ≡ continue r s g
continue-same (ok a) s f g h = h a refl
continue-same (err e) s f g h = refl

module _ {S : Type 0} (obj : Synced S) where
  -- the rounds of a list of windows, up to the first that raises
  unfoldable pub rounds : List (ℕ × ℕ) → (counter : ℕ) → Exec S (Unit {0})
  rounds [] counter = pure tt
  rounds ((first, last) ∷ windows) counter =
      round obj (pos first) (pos last) counter >>= rounds windows

  module _ (tracks : Tracks obj) where
    open obj use {last_update}

    abbrev IsRounds : (fuel a t : ℕ) → List (ℕ × ℕ) → Type 0
    IsRounds fuel a t windows =
        (counter : ℕ) (s : S)
        → last_update s ≡ pos a
        → query_loop obj fuel (pos t) counter s ≡ rounds windows counter s

    done : (fuel a t : ℕ) → t ≤ a → IsRounds fuel a t []
    unfolding query_loop rounds
    done zero a t h counter s at = refl
    done (suc fuel) a t h counter s at = rw at (ground arith)

    -- a round, and the windows after it
    window-IsRounds :
        (fuel a b t : ℕ) (windows : List (ℕ × ℕ))
        → a < t
        → window_end (pos a) (pos t) ≡ pos b
        → IsRounds fuel b t windows
        → IsRounds (suc fuel) a t ((a + 1, b) ∷ windows)
    unfolding rounds
    window-IsRounds fuel a b t windows h end rest counter s at =
        let below : ltb_ℤ (last_update s) (pos t) ≡ true = rw at (ground arith) in
        query_loop-step obj tracks fuel counter (pos t) s below
        ∙ (rw (at, +ℤ-pos a 1, end)
            (continue-same (round obj (pos (a + 1)) (pos b) counter s).0
              (round obj (pos (a + 1)) (pos b) counter s).1 (query_loop obj fuel (pos t))
              (rounds windows)
              (λ n e.
                rest n (round obj (pos (a + 1)) (pos b) counter s).1
                  (round-Returns obj tracks (pos (a + 1)) (pos b) counter s n e))))

    loop-windows :
        (fuel a t : ℕ)
        → t - a ≤ fuel
        → (windows : List (ℕ × ℕ)) × Covers a t windows × IsRounds fuel a t windows
    loop-windows zero a t enough = let over : t ≤ a = omega arith in ([], over, done zero a t over)
    loop-windows (suc fuel) a t enough = elim (Bool-cases (ltb_ℤ (pos a) (pos t))) [
      | inr e ↦ let over : t ≤ a = ground arith in ([], over, done (suc fuel) a t over)
      | inl e ↦
          let less : a < t = ground arith in
          let (b, end, above, below, short) = window_of a t less in
          let (windows, covers, same) = loop-windows fuel b t (omega arith) in
          (
            (a + 1, b) ∷ windows,
            (refl, omega arith, below, short, covers),
            window-IsRounds fuel a b t windows less end same,
          )
    ]

    -- Where the updates and the hook leave the block of the last update to the loop, whether they
    -- return or raise, and block numbers are not negative: query_events_loop is the rounds, up to
    -- the first that raises, of consecutive windows that cover the blocks after its last update up
    -- to the target, each block in one window, and none of more than 2000 blocks.
    pub query_events_loop-windows :
        (a t : ℕ) (s : S)
        → last_update s ≡ pos a
        → (windows : List (ℕ × ℕ)) × Covers a t windows
          × (query_events_loop obj (pos t) s ≡ rounds windows 0 s)
    unfolding query_events_loop
    query_events_loop-windows a t s at =
        let fuel = pos_part (pos t -ℤ last_update s) in
        let (windows, covers, same) =
          loop-windows fuel a t (rw at (omega (arith, -ℤ_parts (pos t) (pos a)))) in
        (windows, covers, same 0 s at)
