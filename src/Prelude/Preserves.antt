-- ===== src/Prelude/Preserves.antt =====
-- A method preserves a property of the state: where it holds before, it holds after, whether the method
-- returns or raises.
use mathlib.Core.Path.{◌≡◌, refl}
use mathlib.Core.Bool.{Bool, true, false}
use mathlib.Core.List.{List, [], ◌∷◌}
use compound_liquidation.Prelude.Tests.{if◌then◌else◌}
use compound_liquidation.Prelude.Errors.{Result, ok, err}
use compound_liquidation.Prelude.Exec.{Exec, pure, lift, continue, each, bind-holds, ◌>>=◌}

pub record Preserves {S A : Type 0} (P : S → Type 0) (m : Exec S A) : Type 0 where
  pub at : (s : S) → P s → P (m s).1

module _ {S A : Type 0} {P : S → Type 0} where
  -- a computation that leaves the state
  pub Preserves-reads : (f : S → Result A) → Preserves P (λ s. (f s, s))
  Preserves-reads f = record { at = λ s h. h }

  pub Preserves-pure : (a : A) → Preserves P (pure a)
  Preserves-pure a = record { at = λ s h. h }

  pub Preserves-lift : (r : Result A) → Preserves P (lift r)
  Preserves-lift r = record { at = λ s h. h }

  pub Preserves-if :
      (b : Bool) {m n : Exec S A} → Preserves P m → Preserves P n → Preserves P (if b then m else n)
  Preserves-if true h k = h
  Preserves-if false h k = k

module _ {S A B : Type 0} {P : S → Type 0} where
  pub Preserves-bind :
      {m : Exec S A} {f : A → Exec S B}
      → Preserves P m
      → ((a : A) → Preserves P (f a))
      → Preserves P (m >>= f)
  Preserves-bind {m} {f} h k = record {
    at = λ s p.
        let q = Preserves.at h s p in bind-holds P m f s q (λ a. Preserves.at (k a) (m s).1 q);
  }

continue-found :
    {S A B : Type 0} (P : S → Type 0) (r : Result A) (s : S) (f : A → Exec S B)
    → P s
    → ((a : A) → r ≡ ok a → P (f a s).1)
    → P (continue r s f).1
continue-found P (ok a) s f p h = h a refl
continue-found P (err e) s f p h = p

module _ {S A B : Type 0} {P : S → Type 0} where
  -- what is read of the state is known afterwards
  pub Preserves-found :
      (r : S → Result A) (f : A → Exec S B)
      → ((s : S) (a : A) → r s ≡ ok a → P s → P (f a s).1)
      → Preserves P ((λ s. (r s, s)) >>= f)
  Preserves-found r f h = record { at = λ s p. continue-found P (r s) s f p (λ a e. h s a e p) }

module _ {S A : Type 0} {P : S → Type 0} {f : A → Exec S (Unit {0})} where
  pub Preserves-each : ((a : A) → Preserves P (f a)) → (l : List A) → Preserves P (each f l)
  unfolding each
  Preserves-each h [] = record { at = λ s p. p }
  Preserves-each h (a ∷ l) = Preserves-bind (h a) (λ _. Preserves-each h l)
