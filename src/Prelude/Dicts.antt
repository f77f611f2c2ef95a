-- ===== src/Prelude/Dicts.antt =====
-- Python's `dict` with text keys, as the list of its entries in the order of insertion, which is the
-- order in which the program iterates over it.
use Prim.Native.String.{String}
use mathlib.Core.Path.{◌≡◌, refl}
use mathlib.Core.Bool.{false}
use mathlib.Core.Option
use mathlib.Core.Option.{Option, none, some}
use mathlib.Core.List.{List, [], ◌∷◌}
use native.Mathlib.Omega.{arith}
use text.Mathlib.Text.{◌==◌}
use text.Mathlib.TextEquality.{eq_iff}
use compound_liquidation.Prelude.Tests.{if◌then◌else◌}
use compound_liquidation.Prelude.Errors.{key_error, Result, or_raise}

abbrev pub Dict {ℓ} : Type ℓ → Type ℓ
Dict V = List (String × V)

module _ {ℓ} {V : Type ℓ} where
  -- `d.get(k, None)`
  abbrev pub lookup : String → Dict V → Option V
  lookup k [] = none
  lookup k ((j, v) ∷ d) = if j == k then some v else lookup k d

  -- `d[k] = v`: a new key goes to the end
  abbrev pub insert : String → V → Dict V → Dict V
  insert k v [] = (k, v) ∷ []
  insert k v ((j, w) ∷ d) = if j == k then (j, v) ∷ d else (j, w) ∷ insert k v d

  -- `d.pop(k)` and `del d[k]`, where the key is there
  abbrev pub erase : String → Dict V → Dict V
  erase k [] = []
  erase k ((j, w) ∷ d) = if j == k then d else (j, w) ∷ erase k d

  -- `list(d.keys())`
  abbrev pub keys : Dict V → List String
  keys [] = []
  keys ((j, w) ∷ d) = j ∷ keys d

  -- `d[k]`, which raises `KeyError` on a missing key
  abbrev pub at_key : String → Dict V → Result V
  at_key k d = or_raise key_error (lookup k d)

  -- `d.update(e)`
  abbrev pub update_all : Dict V → Dict V → Dict V
  update_all d [] = d
  update_all d ((k, v) ∷ e) = update_all (insert k v d) e

  -- change the value under a key that is there: `d[k].field = ...`
  abbrev pub adjust : String → (V → V) → Dict V → Dict V
  adjust k f [] = []
  adjust k f ((j, w) ∷ d) = if j == k then (j, f w) ∷ d else (j, w) ∷ adjust k f d

module _ {ℓ} {V : Type ℓ} where
  pub lookup-insert :
      (k j : String) (v : V) (d : Dict V)
      → lookup j (insert k v d) ≡ (if k == j then some v else lookup j d)
  lookup-insert k j v [] = refl
  lookup-insert k j v ((i, w) ∷ d) =
      ground (arith, eq_iff k j, eq_iff i k, eq_iff i j, lookup-insert k j v d)

  pub lookup-adjust :
      (k j : String) (f : V → V) (d : Dict V)
      → lookup j (adjust k f d) ≡ (if k == j then Option.map f (lookup j d) else lookup j d)
  lookup-adjust k j f [] = ground arith
  lookup-adjust k j f ((i, w) ∷ d) =
      ground (arith, eq_iff k j, eq_iff i k, eq_iff i j, lookup-adjust k j f d)

  pub keys-adjust : (k : String) (f : V → V) (d : Dict V) → keys (adjust k f d) ≡ keys d
  keys-adjust k f [] = refl
  keys-adjust k f ((i, w) ∷ d) = ground (arith, keys-adjust k f d)

  pub lookup-erase_ne :
      (k j : String) (d : Dict V) → (k == j) ≡ false → lookup j (erase k d) ≡ lookup j d
  lookup-erase_ne k j [] h = refl
  lookup-erase_ne k j ((i, w) ∷ d) h =
      ground (arith, eq_iff k j, eq_iff i k, eq_iff i j, lookup-erase_ne k j d h)
