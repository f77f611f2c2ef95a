-- ===== src/Bot/Nearby/Trimmed.antt =====
-- About users_filtering and users_trimming: they give no user twice.
use mathlib.Core.Path.{subst}
use compound_liquidation.Prelude.{
  String, Dict, List, [], ◌∷◌, map, keys, ok, ◌≡◌, false, true, All, str_eq, Bool-cases, inl, inr,
  at_key, >>=-eq-ok, ok_injective, if◌then◌else◌, Bool,
}
use compound_liquidation.Prelude.Int.{ℤ}
use compound_liquidation.Prelude.Float.{Floats}
use compound_liquidation.Prelude.Sort.{place, sort_by, All-place, All-sort_by}
use compound_liquidation.Prelude.Distinct.{IsDistinct, ne-flip}
use compound_liquidation.Users.{States, UserStates}
use compound_liquidation.Users.Queries.{has_any, filtering, users_filtering}
use compound_liquidation.Health.Trimming.{is_kept, filtered, tuple_lt, users_trimming}

module _ {F : Type 0} where
  filtering-All :
      (P : String → Type 0) (d : Dict (UserStates F)) (tokens : List String)
      → All P (keys d)
      → All P (filtering d tokens)
  unfolding filtering
  filtering-All P [] tokens h = tt
  filtering-All P ((usr, u) ∷ d) tokens h = elim (Bool-cases (has_any u tokens)) [
    | inl e ↦ rw e (h.0, filtering-All P d tokens h.1)
    | inr e ↦ rw e (filtering-All P d tokens h.1)
  ]

  filtering-IsDistinct :
      (d : Dict (UserStates F)) (tokens : List String)
      → IsDistinct (keys d)
      → IsDistinct (filtering d tokens)
  unfolding filtering
  filtering-IsDistinct [] tokens h = tt
  filtering-IsDistinct ((usr, u) ∷ d) tokens h = elim (Bool-cases (has_any u tokens)) [
    | inl e ↦
        rw e (
          filtering-All (λ j. str_eq j usr ≡ false) d tokens h.0,
          filtering-IsDistinct d tokens h.1,
        )
    | inr e ↦ rw e (filtering-IsDistinct d tokens h.1)
  ]

  pub users_filtering-IsDistinct :
      (s : States F) (tokens : List String)
      → IsDistinct (keys s.users_states)
      → IsDistinct (users_filtering s tokens)
  unfolding users_filtering
  users_filtering-IsDistinct s tokens h = filtering-IsDistinct s.users_states tokens h

  -- no name stands twice beside the factors
  abbrev Apart : List (F × String) → Type 0
  Apart [] = Unit
  Apart (d ∷ l) = All (λ e. str_eq e.1 d.1 ≡ false) l × Apart l

  All-names :
      (P : String → Type 0) (l : List (F × String)) → All (λ e. P e.1) l → All P (map (λ d. d.1) l)
  All-names P [] h = tt
  All-names P (d ∷ l) h = (h.0, All-names P l h.1)

  names-IsDistinct : (l : List (F × String)) → Apart l → IsDistinct (map (λ d. d.1) l)
  names-IsDistinct [] h = tt
  names-IsDistinct (d ∷ l) h = (All-names (λ j. str_eq j d.1 ≡ false) l h.0, names-IsDistinct l h.1)

  place-Apart :
      (lt : F × String → F × String → Bool) (d : F × String) (l : List (F × String))
      → All (λ e. str_eq e.1 d.1 ≡ false) l
      → Apart l
      → Apart (place lt d l)
  unfolding place
  place-Apart lt d [] h a = (tt, tt)
  place-Apart lt d (e ∷ l) h a = elim (Bool-cases (lt e d)) [
    | inl b ↦ rw b (
      All-place lt (λ x. str_eq x.1 e.1 ≡ false) d l (ne-flip e.1 d.1 h.0) a.0,
      place-Apart lt d l h.1 a.1,
    )
    | inr b ↦ rw b (h, a)
  ]

  sort_by-Apart :
      (lt : F × String → F × String → Bool) (l : List (F × String)) → Apart l → Apart (sort_by lt l)
  unfolding sort_by
  sort_by-Apart lt [] a = tt
  sort_by-Apart lt (d ∷ l) a =
      place-Apart lt d (sort_by lt l) (All-sort_by lt (λ e. str_eq e.1 d.1 ≡ false) l a.0)
        (sort_by-Apart lt l a.1)

module _ {F : Type 0} ⦃fl : Floats F⦄ where
  filtered-All :
      (P : String → Type 0) (is_signal : Bool) (s : States F) (t : ℤ) (users : List String)
      (l : List (F × String))
      → filtered is_signal s t users ≡ ok l
      → All P users
      → All (λ e. P e.1) l
  unfolding filtered
  filtered-All P is_signal s t [] l h all = subst (All (λ e. P e.1)) (ok_injective [] l h) tt
  filtered-All P is_signal s t (usr ∷ users) l h all =
      let (u, e, h1) = >>=-eq-ok (at_key usr s.users_states) _ h in
      let (rest, e', h2) = >>=-eq-ok (filtered is_signal s t users) _ h1 in
      let later = filtered-All P is_signal s t users rest e' all.1 in
      subst (All (λ e. P e.1)) (ok_injective _ l h2)
        (elim (Bool-cases (is_kept is_signal (UserStates.health_factor u) t)) [
          | inl b ↦ rw b (all.0, later)
          | inr b ↦ rw b later
        ])

  filtered-Apart :
      (is_signal : Bool) (s : States F) (t : ℤ) (users : List String) (l : List (F × String))
      → filtered is_signal s t users ≡ ok l
      → IsDistinct users
      → Apart l
  unfolding filtered
  filtered-Apart is_signal s t [] l h d = subst Apart (ok_injective [] l h) tt
  filtered-Apart is_signal s t (usr ∷ users) l h d =
      let (u, e, h1) = >>=-eq-ok (at_key usr s.users_states) _ h in
      let (rest, e', h2) = >>=-eq-ok (filtered is_signal s t users) _ h1 in
      let others = filtered-All (λ j. str_eq j usr ≡ false) is_signal s t users rest e' d.0 in
      let later = filtered-Apart is_signal s t users rest e' d.1 in
      subst Apart (ok_injective _ l h2)
        (elim (Bool-cases (is_kept is_signal (UserStates.health_factor u) t)) [
          | inl b ↦ rw b (others, later)
          | inr b ↦ rw b later
        ])

  pub users_trimming-IsDistinct :
      (users : List String) (s : States F) (t : ℤ) (is_signal : Bool) (l : List String)
      → users_trimming users s t is_signal ≡ ok l
      → IsDistinct users
      → IsDistinct l
  unfolding users_trimming
  users_trimming-IsDistinct users s t is_signal l h d =
      let (found, e, h') = >>=-eq-ok (filtered is_signal s t users) _ h in
      let apart = filtered-Apart is_signal s t users found e d in
      subst IsDistinct (ok_injective _ l h') (by_signal is_signal found apart)
    where
      by_signal :
          (b : Bool) (found : List (F × String))
          → Apart found
          → IsDistinct (map (λ d. d.1) (if b then sort_by tuple_lt found else found))
      by_signal true found a =
          names-IsDistinct (sort_by tuple_lt found) (sort_by-Apart tuple_lt found a)
      by_signal false found a = names-IsDistinct found a
