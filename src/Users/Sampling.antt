-- ===== src/Users/Sampling.antt =====
-- The samples of get_users_sampling and the users of users_filtering.
use compound_liquidation.Prelude.{
  ℕ, zero, suc, ◌+◌, ◌-◌, ◌*◌, ◌/◌, ◌%◌, ◌<◌, ◌≤◌, ◌≡◌, refl, List, [], ◌∷◌, ltb, ap, ◌∙◌, ok,
  length, take, drop, get_elem?, arith, if◌then◌else◌,
}
use compound_liquidation.Users.Queries.{sampling, ceil_div}

get_elem?-drop : {A : Type 0} (l : List A) (n i : ℕ) → get_elem? (drop n l) i ≡ get_elem? l (n + i)
get_elem?-drop l zero i = ap (get_elem? l) {x = i} {y = 0 + i} (omega arith)
get_elem?-drop [] (suc n) i = refl
get_elem?-drop (x ∷ l) (suc n) i =
    get_elem?-drop l n i ∙ ap (get_elem? (x ∷ l)) {x = suc (n + i)} {y = suc n + i} (omega arith)

get_elem?-take :
    {A : Type 0} (l : List A) (n i : ℕ) → i < n → get_elem? (take n l) i ≡ get_elem? l i
get_elem?-take l zero i h = absurd (omega arith)
get_elem?-take [] (suc n) i h = refl
get_elem?-take (x ∷ l) (suc n) zero h = refl
get_elem?-take (x ∷ l) (suc n) (suc i) h = get_elem?-take l n i (omega arith)

ceil_div_bounds : (l intervals : ℕ) → 0 < intervals → l ≤ ceil_div l intervals * intervals
ceil_div_bounds l intervals h = grind arith

quotient_bounds :
    (p size intervals : ℕ)
    → p < size * intervals
    → (p / size < intervals) × (size * (p / size) + p % size ≡ p) × (p % size < size)
quotient_bounds p size intervals h = (grind arith, grind arith, grind arith)

-- With at least one interval, every position of the list stands in the sample whose index is its
-- quotient by the sample size, and that index is below the number of intervals.
pub sampling-covers :
    {A : Type 0} (l : List A) (intervals p : ℕ)
    → 0 < intervals
    → p < length l
    → let size = ceil_div (length l) intervals in
      (p / size < intervals)
      × (sample : List A) × (sampling l (p / size) intervals ≡ ok sample)
      × (get_elem? sample (p % size) ≡ get_elem? l p)
unfolding sampling
sampling-covers l intervals p h k =
    let size = ceil_div (length l) intervals in
    let (small, split, rem) =
      quotient_bounds p size intervals (omega (arith, ceil_div_bounds (length l) intervals h)) in
    let left = size * (p / size) in
    let right = if ltb (length l) (left + size) then length l else left + size in
    (
      small,
      take (right - left) (drop left l),
      ground arith,
      get_elem?-take (drop left l) (right - left) (p % size) (ground arith)
          ∙ get_elem?-drop l left (p % size)
          ∙ ap (get_elem? l) split,
    )
