-- ===== src/Prelude/Exec.antt =====
-- Methods that change an object and may raise: what was written before a raise stays written, so the
-- state comes back beside the error too.
use mathlib.Core.Path.{◌≡◌, refl}
use mathlib.Core.List.{List, [], ◌∷◌}
use compound_liquidation.Prelude.Errors.{Error, Result, ok, err}

abbrev pub Exec : Type 0 → Type 0 → Type 0
Exec S A = S → Result A × S

module _ {S A : Type 0} where
  abbrev pub pure : A → Exec S A
  pure a s = (ok a, s)

  abbrev pub raise : Error → Exec S A
  raise e s = (err e, s)

  abbrev pub lift : Result A → Exec S A
  lift r s = (r, s)

  abbrev pub gets : (S → A) → Exec S A
  gets f s = (ok (f s), s)

abbrev pub modify : {S : Type 0} → (S → S) → Exec S (Unit {0})
modify f s = (ok tt, f s)

-- the rest of a body after a step that may have raised
abbrev pub continue : {S A B : Type 0} → Result A → S → (A → Exec S B) → Result B × S
continue (ok a) s f = f a s
continue (err e) s f = (err e, s)

infixl 5 ◌>>=◌ ◌>>◌
abbrev pub ◌>>=◌ : {S A B : Type 0} → Exec S A → (A → Exec S B) → Exec S B
◌>>=◌ m f s = let (r, s') = m s in continue r s' f

abbrev pub ◌>>◌ : {S A B : Type 0} → Exec S A → Exec S B → Exec S B
m >> k = m >>= λ _. k

-- a loop over a list, for its effects
unfoldable pub each : {A S : Type 0} → (A → Exec S (Unit {0})) → List A → Exec S (Unit {0})
each f [] = pure tt
each f (a ∷ rest) = f a >> each f rest

continue-holds :
    {S A B : Type 0} (P : S → Type 0) (r : Result A) (s : S) (f : A → Exec S B)
    → P s
    → ((a : A) → P (f a s).1)
    → P (continue r s f).1
continue-holds P (ok a) s f h k = k a
continue-holds P (err e) s f h k = h

-- what holds after a step and, where it returned, after the rest, holds after both
pub bind-holds :
    {S A B : Type 0} (P : S → Type 0) (m : Exec S A) (f : A → Exec S B) (s : S)
    → P (m s).1
    → ((a : A) → P (f a (m s).1).1)
    → P ((m >>= f) s).1
bind-holds P m f s h k = continue-holds P (m s).0 (m s).1 f h k

continue-returns :
    {S A B : Type 0} (P : Result A → Type 0) (Q : Result B → Type 0) (r : Result A) (s : S)
    (f : A → Exec S B)
    → P r
    → ((e : Error) → Q (err e))
    → ((a : A) (t : S) → P (ok a) → Q (f a t).0)
    → Q (continue r s f).0
continue-returns P Q (ok a) s f h raised k = k a s h
continue-returns P Q (err e) s f h raised k = raised e

-- what the result of two steps satisfies, from what the first one's does
pub bind-returns :
    {S A B : Type 0} (P : Result A → Type 0) (Q : Result B → Type 0) (m : Exec S A)
    (f : A → Exec S B) (s : S)
    → P (m s).0
    → ((e : Error) → Q (err e))
    → ((a : A) (t : S) → P (ok a) → Q (f a t).0)
    → Q ((m >>= f) s).0
bind-returns P Q m f s h raised k = continue-returns P Q (m s).0 (m s).1 f h raised k

-- Q holds of the state where the method returns.
abbrev pub Returns : {S A : Type 0} → (S → Type 0) → Exec S A → S → Type 0
Returns {A} Q m s = (a : A) → (m s).0 ≡ ok a → Q (m s).1

continue-Returns :
    {S A B : Type 0} (Q : S → Type 0) (r : Result A) (s : S) (f : A → Exec S B)
    → ((a : A) → r ≡ ok a → Returns Q (f a) s)
    → (b : B) → (continue r s f).0 ≡ ok b
    → Q (continue r s f).1
continue-Returns Q (ok a) s f k b h = k a refl b h
continue-Returns Q (err e) s f k b h = cc

-- Two steps return where the first one does, and then the second on its result.
pub bind-Returns :
    {S A B : Type 0} (Q : S → Type 0) (m : Exec S A) (f : A → Exec S B) (s : S)
    → ((a : A) → (m s).0 ≡ ok a → Returns Q (f a) (m s).1)
    → Returns Q (m >>= f) s
bind-Returns Q m f s k = continue-Returns Q (m s).0 (m s).1 f k
