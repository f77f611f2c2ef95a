-- ===== src/Users/Sums.antt =====
-- The cTokens of one market that all users hold together, under each write to the users.
use mathlib.Core.Option.{some-injective}
use compound_liquidation.Prelude.{
  Bool-cases, inl, inr, String, ◌≡◌, Option, none, some, [], ◌∷◌, Dict, lookup, insert, adjust,
  str_eq,
}
use compound_liquidation.Prelude.Int.{ℤ, pos, ◌+ℤ◌, int_laws, parts_of_eq}
use compound_liquidation.Tokens.{CompReserve}
use compound_liquidation.Users.{UserStates}

-- what one user holds of a market
unfoldable pub col_of : Option CompReserve → ℤ
col_of none = pos 0
col_of (some r) = r.col_amount

abbrev pub held_in : String → Dict CompReserve → ℤ
held_in reserve d = col_of (lookup reserve d)

module _ {F : Type 0} where
  abbrev pub held : String → UserStates F → ℤ
  held reserve u = held_in reserve u.reserves

  abbrev pub total_held : String → Dict (UserStates F) → ℤ
  total_held reserve [] = pos 0
  total_held reserve ((user, u) ∷ d) = held reserve u +ℤ total_held reserve d

  pub total_held-insert_new :
      (reserve user : String) (u : UserStates F) (d : Dict (UserStates F))
      → lookup user d ≡ none
      → total_held reserve (insert user u d) ≡ total_held reserve d +ℤ held reserve u
  total_held-insert_new reserve user u [] h = omega int_laws
  total_held-insert_new reserve user u ((j, w) ∷ d) h =
      grind (int_laws, total_held-insert_new reserve user u d)

  pub total_held-adjust :
      (reserve user : String) (f : UserStates F → UserStates F) (u : UserStates F)
      (d : Dict (UserStates F))
      → lookup user d ≡ some u
      → total_held reserve (adjust user f d) +ℤ held reserve u
        ≡ total_held reserve d +ℤ held reserve (f u)
  total_held-adjust reserve user f u [] h = cc
  total_held-adjust reserve user f u ((j, w) ∷ d) h = elim (Bool-cases (str_eq j user)) [
    | inl e ↦ let same : w ≡ u = some-injective _ _ (rw e at h) in rw (e, same) (omega int_laws)
    | inr e ↦
        rw e (omega (int_laws, parts_of_eq (total_held-adjust reserve user f u d (rw e at h))))
  ]
