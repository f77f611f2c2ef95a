-- ===== src/Users/HighProfit/Merge.antt =====
-- About HighProfitSates.update of configs/users.py: the users that it completes from the full states.
use compound_liquidation.Prelude.{
  String, Option, none, some, Dict, List, [], ◌∷◌, lookup, insert, adjust, keys, refl, sym, ap, ◌∙◌,
  ◌≡◌, arith, Bool-cases, Option-cases, inl, inr, false, true, str_eq, All, eq_iff, eq_refl,
  lookup-insert, lookup-adjust, if◌then◌else◌,
}
use mathlib.Core.Path.{subst}
use compound_liquidation.Prelude.Int.{pos, ◌+ℤ◌, eqb_ℤ}
use compound_liquidation.Prelude.Distinct.{IsDistinct, ne-flip, lookup-absent}
use compound_liquidation.Tokens.{CompReserve}
use compound_liquidation.Users.HighProfit.{
  own_reserves, held_reserves, merge_one, merge_shared, merge_slot, merge_apart,
}

-- the reserve of a completed user, from the full states' and from the logs'
abbrev pub combined : Option CompReserve → Option CompReserve → Option CompReserve
combined none mine = mine
combined (some value) none = some value
combined (some value) (some r) = some (record r {
  col_amount = r.col_amount +ℤ value.col_amount;
  debt_amount = r.debt_amount +ℤ value.debt_amount;
  debt_interest = if eqb_ℤ r.debt_interest (pos 0) then value.debt_interest else r.debt_interest;
})

text_eq : (j k : String) → str_eq j k ≡ true → j ≡ k
text_eq j k h = ground (arith, eq_iff j k)

slot-new :
    (k : String) (value : CompReserve) (mine : Dict CompReserve)
    → lookup k mine ≡ none
    → merge_slot k (some value) mine ≡ (none, insert k value mine)
unfolding merge_slot
slot-new k value mine e = rw (e, merge_slot) refl

slot-old :
    (k : String) (value r : CompReserve) (mine : Dict CompReserve)
    → lookup k mine ≡ some r
    → merge_slot k (some value) mine ≡ (some value, adjust k (merge_one value) mine)
unfolding merge_slot
slot-old k value r mine e = rw (e, merge_slot) refl

lookup-merge_slot :
    (k key : String) (value : CompReserve) (mine : Dict CompReserve)
    → lookup key (merge_slot k (some value) mine).1
      ≡ (if str_eq k key then combined (some value) (lookup key mine) else lookup key mine)
lookup-merge_slot k key value mine = elim (Option-cases (lookup k mine)) [
  | inl e ↦
      rw (slot-new k value mine e) (ground (arith, eq_iff k key, lookup-insert k key value mine))
  | inr (r, e) ↦
      rw (slot-old k value r mine e)
        (ground (arith, eq_iff k key, lookup-adjust k key (merge_one value) mine))
]

-- The reserves of the completed user are the sums of the two sides.
pub lookup-merge_apart :
    (key : String) (olds mine : Dict CompReserve)
    → IsDistinct (keys olds)
    → lookup key (merge_apart (own_reserves olds) mine).1
      ≡ combined (lookup key olds) (lookup key mine)
unfolding merge_apart
lookup-merge_apart key [] mine h = refl
lookup-merge_apart key ((k, value) ∷ olds) mine h =
    let mine' = (merge_slot k (some value) mine).1 in
    let rest = lookup-merge_apart key olds mine' h.1 in
    let absent : str_eq k key ≡ true → lookup key olds ≡ none =
      λ same. subst (λ j. lookup j olds ≡ none) (text_eq k key same) (lookup-absent k olds h.0) in
    elim (Bool-cases (str_eq k key)) [
      | inl same ↦ rest ∙ (rw (lookup-merge_slot k key value mine, same, absent same) refl)
      | inr other ↦ rest ∙ (rw (lookup-merge_slot k key value mine, other) refl)
    ]

held-shared :
    (k : String) (r : CompReserve) (mine : Dict CompReserve) (slots : Dict (Option CompReserve))
    → lookup k mine ≡ some r
    → held_reserves mine ((k, none) ∷ slots) ≡ (k, r) ∷ held_reserves mine slots
held-shared k r mine slots e = rw (e, held_reserves) refl

-- The reserves of the full states' user can be read as before.
pub held-merge_apart :
    (olds mine : Dict CompReserve)
    → IsDistinct (keys olds)
    → let merged = merge_apart (own_reserves olds) mine in held_reserves merged.1 merged.0 ≡ olds
unfolding merge_apart
held-merge_apart [] mine h = refl
held-merge_apart ((k, value) ∷ olds) mine h =
    let read = λ (p : Option CompReserve × Dict CompReserve).
      let (slots, merged) = merge_apart (own_reserves olds) p.1 in
      held_reserves merged ((k, p.0) ∷ slots) ≡ (k, value) ∷ olds in
    elim (Option-cases (lookup k mine)) [
      | inl e ↦ subst read (sym (slot-new k value mine e)) (
          let added = insert k value mine in
          let there : lookup k (merge_apart (own_reserves olds) added).1 ≡ some value =
            lookup-merge_apart k olds added h.1
            ∙ (rw (lookup-absent k olds h.0, lookup-insert k k value mine, eq_refl k) refl) in
          held-shared k value _ _ there
          ∙ ap (λ d. (k, value) ∷ d) (held-merge_apart olds added h.1))
      | inr (r, e) ↦
          subst read (sym (slot-old k value r mine e))
            (ap (λ d. (k, value) ∷ d) (held-merge_apart olds (adjust k (merge_one value) mine) h.1))
    ]

abbrev pub twice : CompReserve → CompReserve
twice r = record r {
  col_amount = r.col_amount +ℤ r.col_amount;
  debt_amount = r.debt_amount +ℤ r.debt_amount;
}

merge_one-twice : (r : CompReserve) → merge_one r r ≡ twice r
merge_one-twice r = elim (Bool-cases (eqb_ℤ r.debt_interest (pos 0))) [
  | inl e ↦ rw (e, merge_one) refl
  | inr e ↦ rw (e, merge_one) refl
]

-- the reserves with both amounts twice
abbrev pub doubled : Dict CompReserve → Dict CompReserve
doubled [] = []
doubled ((k, r) ∷ d) = (k, twice r) ∷ doubled d

merge_shared-head :
    (names : List String) (k : String) (r : CompReserve) (d : Dict CompReserve)
    → All (λ j. str_eq j k ≡ false) names
    → merge_shared names ((k, r) ∷ d) ≡ (k, r) ∷ merge_shared names d
unfolding merge_shared
merge_shared-head [] k r d h = refl
merge_shared-head (j ∷ names) k r d h =
    rw (ne-flip j k h.0, merge_shared)
      (merge_shared-head names k r (adjust j (λ r'. merge_one r' r') d) h.1)

pub merge_shared-doubled :
    (mine : Dict CompReserve)
    → IsDistinct (keys mine)
    → merge_shared (keys mine) mine ≡ doubled mine
unfolding merge_shared
merge_shared-doubled [] h = refl
merge_shared-doubled ((k, r) ∷ d) h =
    rw (eq_refl k, merge_shared)
      (merge_shared-head (keys d) k (merge_one r r) d h.0
        ∙ (λ i. (k, merge_one-twice r i) ∷ merge_shared-doubled d h.1 i))
