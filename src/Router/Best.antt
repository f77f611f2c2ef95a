-- ===== src/Router/Best.antt =====
-- What find_routs returns among the routes that it tries.
use mathlib.Core.List.{Memᴰ}
use compound_liquidation.Prelude.{
  if-cases, ◌∙◌, ◌≡◌, refl, false, List, [], ◌∷◌, ◌⊎◌, inl, inr, arith, Dict, Option, All,
}
use compound_liquidation.Prelude.Int.{ℤ, negsuc, eqb_ℤ, ◌≤ℤ◌}
use compound_liquidation.Router.{Hop, Pool, Swap, Routs, better, best_of, candidates, find_routs}

-- a route that was found, and a best one that no route of the list is below
abbrev pub IsFound : ℤ × List Hop → Type 0
IsFound c = eqb_ℤ c.0 (negsuc 0) ≡ false

abbrev pub IsBest : ℤ × List Hop → ℤ × List Hop → Type 0
IsBest best c = IsFound c → IsFound best × (best.0 ≤ℤ c.0)

module _ (swap : Swap) (pools : Dict (Option Pool)) where
  better-keeps : (best d c : ℤ × List Hop) → IsBest best c → IsBest (better swap pools best d) c
  unfolding better
  better-keeps best d c h k = ground arith

  better-new : (best d : ℤ × List Hop) → IsBest (better swap pools best d) d
  unfolding better
  better-new best d k = ground arith

  better-cases :
      (best d : ℤ × List Hop) → (better swap pools best d ≡ d) ⊎ (better swap pools best d ≡ best)
  unfolding better
  better-cases best d = if-cases _ d best

  best_of-keeps :
      (best c : ℤ × List Hop) (l : List (ℤ × List Hop))
      → IsBest best c
      → IsBest (best_of swap pools best l) c
  unfolding best_of
  best_of-keeps best c [] h = h
  best_of-keeps best c (d ∷ l) h =
      best_of-keeps (better swap pools best d) c l (better-keeps best d c h)

  best_of-IsBest :
      (best : ℤ × List Hop) (l : List (ℤ × List Hop)) → All (IsBest (best_of swap pools best l)) l
  unfolding best_of
  best_of-IsBest best [] = tt
  best_of-IsBest best (d ∷ l) =
      let now = better swap pools best d in
      (best_of-keeps now d l (better-new best d), best_of-IsBest now l)

  best_of-mem :
      (best : ℤ × List Hop) (l : List (ℤ × List Hop))
      → (best_of swap pools best l ≡ best) ⊎ Memᴰ (best_of swap pools best l) l
  unfolding best_of
  best_of-mem best [] = inl refl
  best_of-mem best (d ∷ l) = elim (best_of-mem (better swap pools best d) l) [
    | inl e ↦ elim (better-cases best d) [
      | inl e' ↦ inr (Memᴰ.head (e ∙ e'))
      | inr e' ↦ inl (e ∙ e')
    ]
    | inr m ↦ inr (Memᴰ.tail m)
  ]

  -- The result of find_routs is one of the routes that it tries, or -1 with no path, and no route
  -- that was found among those tried needs a smaller amount; so where a route was found the result
  -- is not -1.
  pub find_routs-IsBest :
      (r : Routs) (final_out : ℤ)
      → All (IsBest (find_routs swap pools r final_out)) (candidates swap pools r final_out)
        × ((find_routs swap pools r final_out ≡ (negsuc 0, []))
            ⊎ Memᴰ (find_routs swap pools r final_out) (candidates swap pools r final_out))
  unfolding find_routs
  find_routs-IsBest r final_out =
      let tried = candidates swap pools r final_out in
      (best_of-IsBest (negsuc 0, []) tried, best_of-mem (negsuc 0, []) tried)
