-- ===== src/Liquidation/Guards.antt =====
-- The table of the liquidations that are under way, users_to_liquidate of compound.py: for each user and
-- debt the list `[debt_to_cover, index]`, from whose end free_user_liquidated pops.
use compound_liquidation.Prelude.{
  String, Bool, ◌≡◌, refl, Option, none, some, [], Dict, lookup, insert, Result, ok, err, key_error,
  index_error, zero_division, get_or, if◌then◌else◌, lookup-insert, eq_refl,
}
use compound_liquidation.Prelude.Int.{ℤ, pos, eqb_ℤ}
use compound_liquidation.Prelude.Float.{Floats}
use compound_liquidation.Prelude.Exec.{Exec}

-- the list in its three lengths
pub data Entry : Type 0 where
  both : ℤ → String → Entry
  cover_only : ℤ → Entry
  emptied : Entry

abbrev pub Table : Type 0
Table = Dict (Dict Entry)

-- the two `get` of the tests
unfoldable pub entry_of : String → String → Table → Option Entry
entry_of user debt t = found (lookup user t)
  where
    found : Option (Dict Entry) → Option Entry
    found none = none
    found (some d) = lookup debt d

unfoldable pub put_entry : String → String → Entry → Table → Table
put_entry user debt e t = insert user (insert debt e (get_or (lookup user t) [])) t

-- `users_to_liquidate[user][debt].pop()`
unfoldable pub free_user_liquidated : String → String → Exec Table (Unit {0})
unfolding entry_of put_entry
free_user_liquidated user debt t = popped (entry_of user debt t)
  where
    popped : Option Entry → Result (Unit {0}) × Table
    popped none = (err key_error, t)
    popped (some emptied) = (err index_error, t)
    popped (some (cover_only c)) = (ok tt, put_entry user debt emptied t)
    popped (some (both c index)) = (ok tt, put_entry user debt (cover_only c) t)

unfoldable pub set_user_liquidated : String → String → String → ℤ → Table → Table
unfolding put_entry
set_user_liquidated index user debt debt_to_cover = put_entry user debt (both debt_to_cover index)

module _ (F : Type 0) ⦃fl : Floats F⦄ where
  -- `abs(debt_to_cover / prev - 1) < 0.1`
  unfoldable pub is_close : ℤ → ℤ → Bool
  is_close debt_to_cover prev =
      fl.lt (fl.fabs (fl.sub (fl.div_int debt_to_cover prev) (fl.of_int (pos 1))))
        (fl.decimal (pos 1) 1)

  -- the index of the liquidation under way, where there is one of about the same amount; another
  -- amount is written over it
  unfoldable pub is_user_liquidated : String → String → ℤ → Exec Table (Option String)
  unfolding entry_of put_entry is_close
  is_user_liquidated user debt debt_to_cover t = tested (entry_of user debt t)
    where
      tested : Option Entry → Result (Option String) × Table
      tested none = (ok none, t)
      tested (some emptied) = (err index_error, t)
      tested (some (cover_only c)) = (err index_error, t)
      tested (some (both prev prev_index)) =
          if eqb_ℤ prev (pos 0)
          then (err zero_division, t)
          else if is_close debt_to_cover prev
          then (ok (some prev_index), t)
          else (ok none, put_entry user debt (both debt_to_cover prev_index) t)

entry_of-put_entry :
    (user debt : String) (e : Entry) (t : Table)
    → entry_of user debt (put_entry user debt e t) ≡ some e
unfolding entry_of put_entry
entry_of-put_entry user debt e t =
    rw (lookup-insert user user, eq_refl user, lookup-insert debt debt, eq_refl debt) refl

-- After set_user_liquidated and then free_user_liquidated of the same user and debt, which
-- returns, is_user_liquidated of that user and debt raises IndexError for every amount, since one
-- pop leaves the list with the amount alone.
pub is_user_liquidated-free :
    (F : Type 0) ⦃fl : Floats F⦄
    → (index user debt : String) (cover again : ℤ) (t : Table)
    → let freed = free_user_liquidated user debt (set_user_liquidated index user debt cover t) in
      (freed.0 ≡ ok tt) × ((is_user_liquidated F user debt again freed.1).0 ≡ err index_error)
unfolding free_user_liquidated set_user_liquidated is_user_liquidated
is_user_liquidated-free F index user debt cover again t =
    let set = put_entry user debt (both cover index) t in
    rw
      (
        entry_of-put_entry user debt (both cover index) t,
        entry_of-put_entry user debt (cover_only cover) set,
      )
      (refl, refl)
