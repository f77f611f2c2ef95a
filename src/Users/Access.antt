-- ===== src/Users/Access.antt =====
-- How `States` reads and writes its users and markets: check_user_and_reserve and update_debt of
-- configs/users.py, and assignments through two keys. A missing key raises `KeyError`, with what was
-- written before left in place.
use compound_liquidation.Prelude.{
  String, Bool, none, some, [], ◌∷◌, lookup, insert, adjust, ok, err, key_error, if◌then◌else◌,
}
use compound_liquidation.Prelude.Int.{ℤ, pos}
use compound_liquidation.Prelude.Float.{Floats}
use compound_liquidation.Prelude.Exec.{Exec, pure, modify, continue}
use compound_liquidation.Tokens.{
  CompReserve, new_reserve, CtokenInfos, CtokenRiskParams, CtokenBalances,
}
use compound_liquidation.Users.{new_health_factor, UserStates, States, debt_volume_from}

module _ {F : Type 0} where
  -- an assignment through `self.users_states[user].reserves[reserve]`
  unfoldable pub with_reserve :
      String → String → (CompReserve → CompReserve) → Exec (States F) (Unit {0})
  with_reserve user reserve f s = elim (lookup user s.users_states) [
    | none ↦ (err key_error, s)
    | some u ↦ elim (lookup reserve (UserStates.reserves u)) [
      | none ↦ (err key_error, s)
      | some r ↦ (
        ok tt,
        record s {
          users_states =
              adjust user (λ v. record v { reserves = adjust reserve f v.reserves }) s.users_states;
        },
      )
    ]
  ]

  -- an assignment through `self.ctokens[reserve]`
  unfoldable pub with_ctoken : String → (CtokenInfos → CtokenInfos) → Exec (States F) (Unit {0})
  with_ctoken reserve f s = elim (lookup reserve s.ctokens) [
    | none ↦ (err key_error, s)
    | some c ↦ (ok tt, record s { ctokens = adjust reserve f s.ctokens })
  ]

  -- `self.ctokens[reserve].risks.borrow_index`
  unfoldable pub borrow_index_of : String → Exec (States F) ℤ
  borrow_index_of reserve s = elim (lookup reserve s.ctokens) [
    | none ↦ (err key_error, s)
    | some c ↦ (ok (CtokenRiskParams.borrow_index (CtokenInfos.risks c)), s)
  ]

  abbrev pub when : Bool → Exec (States F) (Unit {0}) → Exec (States F) (Unit {0})
  when b m = if b then m else pure tt

abbrev pub add_balances : (CtokenBalances → CtokenBalances) → CtokenInfos → CtokenInfos
add_balances f c = record c { balances = f c.balances }

abbrev pub set_risks : (CtokenRiskParams → CtokenRiskParams) → CtokenInfos → CtokenInfos
set_risks f c = record c { risks = f c.risks }

module _ {F : Type 0} ⦃fl : Floats F⦄ where
  abbrev pub new_user : UserStates F
  new_user = record { reserves = []; health_factor = new_health_factor; vai_repay = pos 0 }

  -- 1 where the user and the reserve were there, and 2 where one of them is new
  unfoldable pub check_user_and_reserve : String → String → Exec (States F) ℤ
  check_user_and_reserve user reserve s = elim (lookup user s.users_states) [
    | none ↦ (
      ok (pos 2),
      record s {
        users_states =
            insert user (record new_user { reserves = (reserve, new_reserve) ∷ [] }) s.users_states;
      },
    )
    | some u ↦ elim (lookup reserve (UserStates.reserves u)) [
      | none ↦ (
        ok (pos 2),
        record s {
          users_states =
              adjust user (λ v. record v { reserves = insert reserve new_reserve v.reserves })
                s.users_states;
        },
      )
      | some r ↦ (ok (pos 1), s)
    ]
  ]

module _ {F : Type 0} where
  save_debt : String → UserStates F → ℤ → Exec (States F) (Unit {0})
  save_debt usr u volume = modify λ s. record s {
    users_states =
        insert usr
          (record u {
            health_factor = record (UserStates.health_factor u) { debt_volume = volume };
          })
          s.users_states;
  }

  -- `States.update_debt`
  pub update_debt : String → Exec (States F) (Unit {0})
  unfolding save_debt
  update_debt usr s = elim (lookup usr s.users_states) [
    | none ↦ (err key_error, s)
    | some u ↦
        continue (debt_volume_from s.ctokens (pos 0) (UserStates.reserves u)) s (save_debt usr u)
  ]
