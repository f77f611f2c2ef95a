-- ===== src/Prelude/Keeps.antt =====
-- A method keeps a part of the state: it leaves the part as it was, whether it returns or raises.
use mathlib.Core.Path.{◌≡◌, refl, ap, ◌∙◌}
use mathlib.Core.Bool.{Bool, true, false}
use compound_liquidation.Prelude.Tests.{if◌then◌else◌}
use mathlib.Core.List.{List, [], ◌∷◌}
use compound_liquidation.Prelude.Errors.{Result, ok, err}
use compound_liquidation.Prelude.Exec.{Exec, pure, lift, continue, each, ◌>>=◌}

pub record Keeps {S A C : Type 0} (part : S → C) (m : Exec S A) : Type 0 where
  pub at : (s : S) → part (m s).1 ≡ part s

module _ {S A C : Type 0} {part : S → C} where
  pub Keeps-pure : (a : A) → Keeps part (pure a)
  Keeps-pure a = record { at = λ s. refl }

  pub Keeps-lift : (r : Result A) → Keeps part (lift r)
  Keeps-lift r = record { at = λ s. refl }

  -- a computation that reads the state only
  pub Keeps-reads : (f : S → Result A) → Keeps part (λ s. (f s, s))
  Keeps-reads f = record { at = λ s. refl }

  pub Keeps-if :
      (b : Bool) {m n : Exec S A} → Keeps part m → Keeps part n → Keeps part (if b then m else n)
  Keeps-if true h k = h
  Keeps-if false h k = k

module _ {S A B C : Type 0} {part : S → C} where
  Keeps-continue :
      (r : Result A) (s t : S) (f : A → Exec S B)
      → part s ≡ part t
      → ((a : A) → Keeps part (f a))
      → part (continue r s f).1 ≡ part t
  Keeps-continue (ok a) s t f h k = Keeps.at (k a) s ∙ h
  Keeps-continue (err e) s t f h k = h

  pub Keeps-bind :
      {m : Exec S A} {f : A → Exec S B}
      → Keeps part m
      → ((a : A) → Keeps part (f a))
      → Keeps part (m >>= f)
  Keeps-bind {m} {f} h k = record { at = λ s. Keeps-continue (m s).0 (m s).1 s f (Keeps.at h s) k }

module _ {S A C : Type 0} {part : S → C} {f : A → Exec S (Unit {0})} where
  pub Keeps-each : ((a : A) → Keeps part (f a)) → (l : List A) → Keeps part (each f l)
  unfolding each
  Keeps-each h [] = Keeps-pure tt
  Keeps-each h (a ∷ l) = Keeps-bind (h a) (λ _. Keeps-each h l)

module _ {S A C D : Type 0} {part : S → C} {m : Exec S A} where
  -- what computes from a part that is kept is kept
  pub Keeps-map : (g : C → D) → Keeps part m → Keeps (λ s. g (part s)) m
  Keeps-map g h = record { at = λ s. ap g (Keeps.at h s) }
