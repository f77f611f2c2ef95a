-- ===== src/Prelude/Sort.antt =====
-- Python's `sorted`: a stable sort that asks only `<`. `reverse=True` keeps the order of equal
-- elements too, so it is the sort by the flipped test.
use mathlib.Core.Path.{◌≡◌}
use mathlib.Core.Logic.{inl, inr}
use mathlib.Core.Bool.{Bool, true, false}
use mathlib.Core.List.{List, [], ◌∷◌, Perm}
use mathlib.Core.List.Perm
use compound_liquidation.Prelude.Tests.{if◌then◌else◌, Bool-cases}
use compound_liquidation.Prelude.Lists.{All}

module _ {ℓ} {A : Type ℓ} (lt : A → A → Bool) where
  unfoldable pub place : A → List A → List A
  place x [] = x ∷ []
  place x (y ∷ ys) = if lt y x then y ∷ place x ys else x ∷ y ∷ ys

  unfoldable pub sort_by : List A → List A
  unfolding place
  sort_by [] = []
  sort_by (x ∷ xs) = place x (sort_by xs)

  -- No later element is below an earlier one.
  abbrev pub IsSortedBy : List A → Type 0
  IsSortedBy [] = Unit
  IsSortedBy (x ∷ xs) = All (λ y. lt y x ≡ false) xs × IsSortedBy xs

  place-perm : (x : A) (l : List A) → Perm (place x l) (x ∷ l)
  unfolding place
  place-perm x [] = Perm.refl (x ∷ [])
  place-perm x (y ∷ ys) = elim (Bool-cases (lt y x)) [
    | inl e ↦ rw e (Perm.trans (Perm.cons y (place-perm x ys)) (Perm.swap x y ys))
    | inr e ↦ rw e (Perm.refl (x ∷ y ∷ ys))
  ]

  pub sort_by-perm : (l : List A) → Perm (sort_by l) l
  unfolding sort_by
  sort_by-perm [] = Perm.refl []
  sort_by-perm (x ∷ xs) = Perm.trans (place-perm x (sort_by xs)) (Perm.cons x (sort_by-perm xs))

  module _ {κ} (P : A → Type κ) where
    pub All-place : (x : A) (l : List A) → P x → All P l → All P (place x l)
    unfolding place
    All-place x [] hx hl = (hx, tt)
    All-place x (y ∷ ys) hx hl = elim (Bool-cases (lt y x)) [
      | inl e ↦ rw e (hl.0, All-place x ys hx hl.1)
      | inr e ↦ rw e (hx, hl)
    ]

    pub All-sort_by : (l : List A) → All P l → All P (sort_by l)
    unfolding sort_by
    All-sort_by [] h = tt
    All-sort_by (x ∷ xs) h = All-place x (sort_by xs) h.0 (All-sort_by xs h.1)

  -- `lt` is a strict weak order: it is asymmetric, and its negation is transitive.
  module _ (asym : (x y : A) → lt x y ≡ true → lt y x ≡ false)
      (negtrans : (x y z : A) → lt y x ≡ false → lt z y ≡ false → lt z x ≡ false) where
    above :
        (x y : A) (l : List A)
        → lt y x ≡ false
        → All (λ z. lt z y ≡ false) l
        → All (λ z. lt z x ≡ false) l
    above x y [] h k = tt
    above x y (z ∷ l) h k = (negtrans x y z h k.0, above x y l h k.1)

    place-IsSortedBy : (x : A) (l : List A) → IsSortedBy l → IsSortedBy (place x l)
    unfolding place
    place-IsSortedBy x [] h = (tt, tt)
    place-IsSortedBy x (y ∷ ys) h = elim (Bool-cases (lt y x)) [
      | inl e ↦
          rw e (All-place (λ z. lt z y ≡ false) x ys (asym y x e) h.0, place-IsSortedBy x ys h.1)
      | inr e ↦ rw e ((e, above x y ys e h.0), h)
    ]

    pub sort_by-IsSortedBy : (l : List A) → IsSortedBy (sort_by l)
    unfolding sort_by
    sort_by-IsSortedBy [] = tt
    sort_by-IsSortedBy (x ∷ xs) = place-IsSortedBy x (sort_by xs) (sort_by-IsSortedBy xs)
