-- ===== src/Prelude/Errors.antt =====
-- Python's exceptions as values, and methods that change an object and may raise: what was written
-- before a raise stays written, so the state comes back beside the error too.
use mathlib.Core.Path.{◌≡◌, refl, ap}
use mathlib.Core.Option.{Option, none, some}
use mathlib.Core.List.{List, [], ◌∷◌}
use Prim.Native.Nat.{ℕ, zero, suc}

-- `raised` is a plain `Exception`; the others are named as in Python.
pub data Error : Type 0 where
  key_error index_error zero_division value_error type_error attribute_error name_error raised :
      Error

pub data Result {ℓ} (A : Type ℓ) : Type ℓ where
  ok : A → Result A
  err : Error → Result A

module _ {ℓ κ} {A : Type ℓ} {B : Type κ} where
  infixl 5 ◌>>=◌
  abbrev pub ◌>>=◌ : Result A → (A → Result B) → Result B
  ok x >>= next = next x
  err problem >>= next = err problem

abbrev pub or_raise {ℓ} : {A : Type ℓ} → Error → Option A → Result A
or_raise e none = err e
or_raise e (some a) = ok a

-- `l[i]` at an index that is not negative
abbrev pub at_index {ℓ} : {A : Type ℓ} → List A → ℕ → Result A
at_index [] i = err index_error
at_index (x ∷ xs) zero = ok x
at_index (x ∷ xs) (suc i) = at_index xs i

abbrev pub map_ok {ℓ κ} : {A : Type ℓ} {B : Type κ} → (A → B) → Result A → Result B
map_ok f (ok a) = ok (f a)
map_ok f (err e) = err e

get_ok {ℓ} : {A : Type ℓ} → A → Result A → A
get_ok a (ok b) = b
get_ok a (err e) = a

-- The first step of a body that returned has returned, and so has the rest on its result.
module _ {ℓ κ} {A : Type ℓ} {B : Type κ} where
  pub >>=-eq-ok :
      (first : Result A) (next : A → Result B) {last : B}
      → (first >>= next) ≡ ok last
      → (x : A) × (first ≡ ok x) × (next x ≡ ok last)
  >>=-eq-ok (err problem) next h = cc
  >>=-eq-ok (ok x) next h = (x, refl, h)

pub ok_injective {ℓ} : {A : Type ℓ} (a b : A) → ok a ≡ ok b → a ≡ b
unfolding get_ok
ok_injective a b h = ap (get_ok a) h
