-- ===== src/Prelude/Loops.antt =====
-- What holds where a loop over a list returns.
use mathlib.Core.List.{List, [], ◌∷◌}
use compound_liquidation.Prelude.Lists.{All}
use compound_liquidation.Prelude.Exec.{Exec, each, Returns, bind-Returns}

module _ {S A : Type 0} (f : A → Exec S (Unit {0})) where
  -- what each step keeps holds after the loop
  pub each-Returns :
      (Q : S → Type 0)
      → ((a : A) (s : S) → Q s → Returns Q (f a) s)
      → (l : List A) (s : S) → Q s
      → Returns Q (each f l) s
  unfolding each
  each-Returns Q keeps [] s q = λ u h. q
  each-Returns Q keeps (a ∷ l) s q =
      bind-Returns Q (f a) (λ _. each f l) s
        (λ u e. each-Returns Q keeps l (f a s).1 (keeps a s q u e))

  -- what a step achieves for its own element, and keeps for the others, holds of every element
  pub each-Returns-All :
      (Done : A → S → Type 0)
      → ((b a : A) (s : S) → Done b s → Returns (Done b) (f a) s)
      → ((a : A) (s : S) → Returns (Done a) (f a) s)
      → (l : List A) (s : S) → Returns (λ t. All (λ a. Done a t) l) (each f l) s
  unfolding each
  each-Returns-All Done keeps has [] s = λ u h. tt
  each-Returns-All Done keeps has (a ∷ l) s =
      bind-Returns (λ t. All (λ a. Done a t) (a ∷ l)) (f a) (λ _. each f l) s
        (λ u e v h.
          let next = (f a s).1 in
          (
            each-Returns (Done a) (keeps a) l next (has a s u e) v h,
            each-Returns-All Done keeps has l next v h,
          ))
