-- ===== src/Prelude/Distinct.antt =====
-- The keys of a `dict` stand once each, and then assigning them one by one builds the same dict.
use Prim.Native.String.{String}
use mathlib.Core.Path.{◌≡◌, refl, sym, ap, ◌∙◌}
use mathlib.Core.Bool.{false}
use mathlib.Core.Option.{none}
use mathlib.Core.List.{List, [], ◌∷◌, ◌++◌, append-nil, append_assoc}
use native.Mathlib.Omega.{arith}
use text.Mathlib.Text.{◌==◌}
use text.Mathlib.TextEquality.{eq_iff}
use compound_liquidation.Prelude.Lists.{All}
use compound_liquidation.Prelude.Tests.{Bool-cases}
use mathlib.Core.Logic.{inl, inr}
use compound_liquidation.Prelude.Dicts.{Dict, lookup, insert, keys, update_all, lookup-insert}

-- no key stands twice
abbrev pub IsDistinct : List String → Type 0
IsDistinct [] = Unit
IsDistinct (k ∷ ks) = All (λ j. (j == k) ≡ false) ks × IsDistinct ks

pub ne-flip : (j k : String) → (j == k) ≡ false → (k == j) ≡ false
ne-flip j k h = ground (arith, eq_iff j k, eq_iff k j)

module _ {V : Type 0} where
  pub lookup-absent :
      (k : String) (d : Dict V) → All (λ j. (j == k) ≡ false) (keys d) → lookup k d ≡ none
  lookup-absent k [] h = refl
  lookup-absent k ((j, v) ∷ d) h = rw (h.0) (lookup-absent k d h.1)

  insert-absent :
      (k : String) (v : V) (d : Dict V) → lookup k d ≡ none → insert k v d ≡ d ++ (k, v) ∷ []
  insert-absent k v [] h = refl
  insert-absent k v ((j, w) ∷ d) h = ground (arith, insert-absent k v d)

  update_all-append :
      (acc d : Dict V)
      → All (λ k. lookup k acc ≡ none) (keys d)
      → IsDistinct (keys d)
      → update_all acc d ≡ acc ++ d
  update_all-append acc [] h k = sym (append-nil acc)
  update_all-append acc ((k, v) ∷ d) h distinct =
      let next = update_all-append (insert k v acc) d (still (keys d) h.1 distinct.0) distinct.1 in
      next ∙ ap (λ e. e ++ d) (insert-absent k v acc h.0) ∙ append_assoc acc ((k, v) ∷ []) d
    where
      still :
          (ks : List String)
          → All (λ j. lookup j acc ≡ none) ks
          → All (λ j. (j == k) ≡ false) ks
          → All (λ j. lookup j (insert k v acc) ≡ none) ks
      still [] h ne = tt
      still (j ∷ ks) h ne =
          (lookup-insert k j v acc ∙ (rw (ne-flip j k ne.0) h.0), still ks h.1 ne.1)

  pub update_all-IsDistinct : (d : Dict V) → IsDistinct (keys d) → update_all [] d ≡ d
  update_all-IsDistinct d distinct = update_all-append [] d (all_absent (keys d)) distinct
    where
      all_absent : (ks : List String) → All (λ k. lookup {V = V} k [] ≡ none) ks
      all_absent [] = tt
      all_absent (k ∷ ks) = (refl, all_absent ks)

  insert-All :
      (P : String → Type 0) (k : String) (v : V) (d : Dict V)
      → P k
      → All P (keys d)
      → All P (keys (insert k v d))
  insert-All P k v [] h hs = (h, tt)
  insert-All P k v ((j, w) ∷ d) h hs = elim (Bool-cases (j == k)) [
    | inl e ↦ rw e hs
    | inr e ↦ rw e (hs.0, insert-All P k v d h hs.1)
  ]

  pub insert-IsDistinct :
      (k : String) (v : V) (d : Dict V) → IsDistinct (keys d) → IsDistinct (keys (insert k v d))
  insert-IsDistinct k v [] h = (tt, tt)
  insert-IsDistinct k v ((j, w) ∷ d) h = elim (Bool-cases (j == k)) [
    | inl e ↦ rw e h
    | inr e ↦
        rw e (
          insert-All (λ i. (i == j) ≡ false) k v d (ne-flip j k e) h.0,
          insert-IsDistinct k v d h.1,
        )
  ]
