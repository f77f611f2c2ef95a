-- ===== src/Bot/Nearby.antt =====
-- About the lists of users near liquidation, and where users_subscribe_callback puts a user.
pub mod Once
pub mod Trimmed
pub mod Idle
pub mod Reached
use compound_liquidation.Prelude.{
  ℕ, zero, suc, ◌+◌, String, Bool, ◌≡◌, refl, ◌⊎◌, inl, inr, false, List, [], ◌∷◌, ok, All, All-map,
  Bool-cases, arith,
}
use compound_liquidation.Prelude.Sort.{IsSortedBy}
use compound_liquidation.Prelude.Float.{Floats, IsFloats}
use compound_liquidation.Users.{States}
use compound_liquidation.Health.Trimming.{value_of}
use compound_liquidation.Bot.Logs.{insert_at, place_of}

module _ {A : Type 0} (P : A → Type 0) where
  All-insert_at : (k : ℕ) (x : A) (l : List A) → P x → All P l → All P (insert_at k x l)
  unfolding insert_at
  All-insert_at zero x l h hs = (h, hs)
  All-insert_at (suc k) x [] h hs = (h, tt)
  All-insert_at (suc k) x (y ∷ l) h hs = (hs.0, All-insert_at k x l h hs.1)

module _ {F : Type 0} ⦃fl : Floats F⦄ where
  -- the order of the users by their factors
  abbrev pub below_by : (String → F) → String → String → Bool
  below_by factor a b = Floats.lt fl (factor a) (factor b)

  -- the factors that the users have in the states
  abbrev pub HasFactors : States F → (String → F) → List String → Type 0
  HasFactors s factor users = All (λ u. value_of s u ≡ ok (factor u)) users

  module _ ⦃laws : IsFloats F⦄ (s : States F) (factor : String → F) (usr : String)
      (negtrans : (a b c : String)
        → below_by factor b a ≡ false
        → below_by factor c b ≡ false
        → below_by factor c a ≡ false) where
    abbrev Placed : (i : ℕ) → List String → Type 0
    Placed i users =
        ((place_of s (factor usr) i users ≡ ok 0) × All (λ u. below_by factor usr u ≡ false) users)
        ⊎ ((k : ℕ) × (place_of s (factor usr) i users ≡ ok (i + k))
            × IsSortedBy (below_by factor) (insert_at k usr users))

    placed :
        (i : ℕ) (users : List String)
        → HasFactors s factor users
        → IsSortedBy (below_by factor) users
        → Placed i users
    unfolding place_of insert_at
    placed i [] h sorted = inl (refl, tt)
    placed i (u ∷ users) h sorted = elim (Bool-cases (below_by factor usr u)) [
      | inl above ↦
          let under = laws.lt_asym (factor usr) (factor u) above in
          inr (
            0,
            rw (h.0, above) (ground arith),
            ((under, All-map users (λ w k. negtrans usr u w under k) sorted.0), sorted),
          )
      | inr below ↦ elim (placed (suc i) users h.1 sorted.1) [
        | inl (e, none_above) ↦ inl (rw (h.0, below) e, (below, none_above))
        | inr (k, e, sorted') ↦ inr (
          suc k,
          rw (h.0, below) (ground arith),
          (All-insert_at (λ w. below_by factor w u ≡ false) k usr users below sorted.0, sorted'),
        )
      ]
    ]

    -- Where every listed user has a health factor, the factors ascend along the list, and being
    -- above a factor or level with it is transitive on them: either none of them is above the new
    -- factor and place_of returns 0, or place_of returns a place where inserting the new user
    -- keeps the factors ascending.
    pub place_of-IsSorted :
        (users : List String)
        → HasFactors s factor users
        → IsSortedBy (below_by factor) users
        → ((place_of s (factor usr) 0 users ≡ ok 0)
            × All (λ u. below_by factor usr u ≡ false) users)
          ⊎ ((k : ℕ) × (place_of s (factor usr) 0 users ≡ ok k)
              × IsSortedBy (below_by factor) (insert_at k usr users))
    place_of-IsSorted users h sorted = elim (placed 0 users h sorted) [
      | inl none_above ↦ inl none_above
      | inr (k, e, sorted') ↦ inr (k, ground arith, sorted')
    ]
