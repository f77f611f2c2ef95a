-- ===== src/Users/Stable.antt =====
-- About States.update of configs/users.py: a property of the states that each of its steps preserves, it
-- preserves.
use compound_liquidation.Prelude.{
  ℕ, ◌+◌, ◌||◌, str_eq, drop, insert, at_index, String, List, Option, some, Bool, lookup,
  Option-cases, inl, inr, update_all, [], ◌∷◌,
}
use compound_liquidation.Prelude.Int.{ℤ, ◌+ℤ◌, ◌-ℤ◌, ◌*ℤ◌, fdiv}
use compound_liquidation.Prelude.Float.{Floats}
use compound_liquidation.Prelude.Exec.{lift, modify, bind-holds}
use compound_liquidation.Prelude.Preserves.{
  Preserves, Preserves-bind, Preserves-pure, Preserves-lift, Preserves-if,
}
use compound_liquidation.Tokens.{CompReserve, CtokenInfos}
use compound_liquidation.Config.{exp_scale}
use compound_liquidation.Chain.{
  Eth, LogReceipt, AbiValue, parse_event, uint_at, address_at, Parsed, skipped, undecodable, event,
}
use compound_liquidation.Users.{States}
use compound_liquidation.Events.{State, vai_update}
use compound_liquidation.Prelude.Text.{lower}
use compound_liquidation.Users.Access.{
  with_reserve, with_ctoken, borrow_index_of, add_balances, set_risks, check_user_and_reserve, when,
}
use compound_liquidation.Users.Handlers.{
  users_event_abi, transfer_supply, transfer_balances, transfer, on_transfer, set_debt,
  on_repay_borrow, on_borrow, on_accrue_interest, on_reserves, on_reserve_factor, on_event,
  on_parsed, update_plug_in, update,
}

-- what the steps are made of preserves the property
pub record IsStable {F : Type 0} ⦃fl : Floats F⦄ (P : States F → Type 0) : Type 0 where
  pub check : (user reserve : String) → Preserves P (check_user_and_reserve user reserve)
  pub at_reserve :
      (user reserve : String) (f : CompReserve → CompReserve)
      → Preserves P (with_reserve user reserve f)
  pub at_market :
      (reserve : String) (f : CtokenInfos → CtokenInfos) → Preserves P (with_ctoken reserve f)
  pub at_plug_in :
      (plug_in : Option (State ℤ)) (s : States F) → P s → P (record s { plug_in = plug_in })

module _ {F : Type 0} ⦃fl : Floats F⦄ (P : States F → Type 0) (stable : IsStable P) where
  open stable use {check, at_reserve, at_market, at_plug_in}

  stable-borrow_index_of : (reserve : String) → Preserves P (borrow_index_of reserve)
  unfolding borrow_index_of
  stable-borrow_index_of reserve = record {
    at = λ s h. elim (Option-cases (lookup reserve s.ctokens)) [
      | inl e ↦ rw (e, borrow_index_of) h
      | inr (c, e) ↦ rw (e, borrow_index_of) h
    ];
  }

  supply-side :
      (b : Bool) (reserve : String) (f : CtokenInfos → CtokenInfos)
      → Preserves P (when b (with_ctoken reserve f))
  supply-side b reserve f = Preserves-if b (at_market reserve f) (Preserves-pure tt)

  stable-supply :
      (reserve from_user to_user : String) (amount : ℤ)
      → Preserves P (transfer_supply reserve from_user to_user amount)
  unfolding transfer_supply
  stable-supply reserve from_user to_user amount =
      Preserves-bind
        (supply-side (str_eq from_user (lower reserve)) reserve
          (add_balances λ b. record b { total_supply = b.total_supply +ℤ amount }))
        (λ _.
          supply-side (str_eq to_user (lower reserve)) reserve
            (add_balances λ b. record b { total_supply = b.total_supply -ℤ amount }))

  stable-balances :
      (reserve from_user to_user : String) (amount : ℤ)
      → Preserves P (transfer_balances reserve from_user to_user amount)
  unfolding transfer_balances
  stable-balances reserve from_user to_user amount =
      Preserves-bind
        (at_reserve from_user reserve (λ r. record r { col_amount = r.col_amount -ℤ amount }))
        (λ _. at_reserve to_user reserve (λ r. record r { col_amount = r.col_amount +ℤ amount }))

  stable-transfer :
      (reserve from_user to_user : String) (amount : ℤ)
      → Preserves P (transfer reserve from_user to_user amount)
  unfolding transfer
  stable-transfer reserve from_user to_user amount = Preserves-bind (check from_user reserve) (λ c1.
      Preserves-bind (check to_user reserve) (λ c2.
        Preserves-bind (stable-supply reserve from_user to_user amount) (λ _.
          Preserves-bind (stable-balances reserve from_user to_user amount)
            (λ _. Preserves-pure (insert to_user c2 ((from_user, c1) ∷ []))))))

  stable-on_transfer :
      (eth : Eth) (log : LogReceipt) (reserve : String) (args : List AbiValue)
      → Preserves P (on_transfer eth log reserve args)
  unfolding on_transfer
  stable-on_transfer eth log reserve args =
      Preserves-bind (Preserves-lift (at_index log.topics 1)) (λ a.
        Preserves-bind (Preserves-lift (at_index log.topics 2)) (λ b.
          Preserves-bind (Preserves-lift (uint_at args 0)) (λ amount.
            stable-transfer reserve (Eth.hex eth (drop 12 a)) (Eth.hex eth (drop 12 b)) amount)))

  stable-set_debt :
      (reserve borrower : String) (amount total_borrow : ℤ)
      → Preserves P (set_debt reserve borrower amount total_borrow)
  unfolding set_debt
  stable-set_debt reserve borrower amount total_borrow =
      Preserves-bind (check borrower reserve) (λ c.
        Preserves-bind (at_reserve borrower reserve (λ r. record r { debt_amount = amount })) (λ _.
          Preserves-bind (stable-borrow_index_of reserve) (λ index.
            Preserves-bind (at_reserve borrower reserve (λ r. record r { debt_interest = index }))
              (λ _.
                Preserves-bind
                  (at_market reserve (add_balances λ b. record b { total_borrow = total_borrow }))
                  (λ _. Preserves-pure ((borrower, c) ∷ []))))))

  stable-on_repay_borrow :
      (reserve : String) (args : List AbiValue) → Preserves P (on_repay_borrow reserve args)
  unfolding on_repay_borrow
  stable-on_repay_borrow reserve args =
      Preserves-bind (Preserves-lift (address_at args 1)) (λ borrower.
        Preserves-bind (Preserves-lift (uint_at args 3)) (λ amount.
          Preserves-bind (Preserves-lift (uint_at args 2)) (λ _.
            Preserves-bind (Preserves-lift (uint_at args 4))
              (λ total. stable-set_debt reserve borrower amount total))))

  stable-on_borrow :
      (reserve : String) (args : List AbiValue) → Preserves P (on_borrow reserve args)
  unfolding on_borrow
  stable-on_borrow reserve args = Preserves-bind (Preserves-lift (address_at args 0)) (λ borrower.
      Preserves-bind (Preserves-lift (uint_at args 2)) (λ amount.
        Preserves-bind (Preserves-lift (uint_at args 1)) (λ _.
          Preserves-bind (Preserves-lift (uint_at args 3))
            (λ total. stable-set_debt reserve borrower amount total))))

  stable-on_accrue_interest :
      (deviation : ℕ) (reserve : String) (args : List AbiValue)
      → Preserves P (on_accrue_interest deviation reserve args)
  unfolding on_accrue_interest
  stable-on_accrue_interest deviation reserve args =
      Preserves-bind (Preserves-lift (uint_at args (0 + deviation))) (λ interest_accumulated.
        Preserves-bind (Preserves-lift (uint_at args (1 + deviation))) (λ index.
          Preserves-bind (Preserves-lift (uint_at args (2 + deviation))) (λ total.
            Preserves-bind (at_market reserve (set_risks λ r. record r { borrow_index = index }))
              (λ _.
                Preserves-bind
                  (at_market reserve (add_balances λ b. record b { total_borrow = total }))
                  (λ _.
                    Preserves-bind (at_market reserve (reserve_grows interest_accumulated))
                      (λ _. Preserves-pure []))))))
    where
      reserve_grows : ℤ → CtokenInfos → CtokenInfos
      reserve_grows interest c =
          add_balances
            (λ b. record b {
              total_reserve =
                  b.total_reserve +ℤ fdiv (c.risks.reserve_factor *ℤ interest) exp_scale;
            })
            c

  stable-on_reserves :
      (reserve : String) (args : List AbiValue) → Preserves P (on_reserves reserve args)
  unfolding on_reserves
  stable-on_reserves reserve args = Preserves-bind (Preserves-lift (uint_at args 2)) (λ new.
      Preserves-bind (at_market reserve (add_balances λ b. record b { total_reserve = new }))
        (λ _. Preserves-pure []))

  stable-on_reserve_factor :
      (reserve : String) (args : List AbiValue) → Preserves P (on_reserve_factor reserve args)
  unfolding on_reserve_factor
  stable-on_reserve_factor reserve args = Preserves-bind (Preserves-lift (uint_at args 1)) (λ new.
      Preserves-bind (at_market reserve (set_risks λ r. record r { reserve_factor = new }))
        (λ _. Preserves-pure []))

  stable-on_event :
      (eth : Eth) (log : LogReceipt) (name : String) (args : List AbiValue)
      → Preserves P (on_event eth log name args)
  unfolding on_event
  stable-on_event eth log name args =
      let reserve = Eth.to_checksum_address eth log.address in
      Preserves-if (str_eq name "Transfer") (stable-on_transfer eth log reserve args) (
        Preserves-if (str_eq name "RepayBorrow") (stable-on_repay_borrow reserve args) (
          Preserves-if (str_eq name "Borrow") (stable-on_borrow reserve args) (
            Preserves-if (str_eq name "AccrueInterest_delegate")
              (stable-on_accrue_interest 1 reserve args)
              (Preserves-if (str_eq name "AccrueInterest")
                (stable-on_accrue_interest 0 reserve args)
                (Preserves-if (str_eq name "ReservesAdded" || str_eq name "ReservesReduced")
                  (stable-on_reserves reserve args)
                  (Preserves-if (str_eq name "NewReserveFactor")
                    (stable-on_reserve_factor reserve args) (Preserves-pure [])))))))

  stable-on_parsed :
      (eth : Eth) (log : LogReceipt) (parsed : Parsed) → Preserves P (on_parsed eth log parsed)
  unfolding on_parsed
  stable-on_parsed eth log skipped = Preserves-pure []
  stable-on_parsed eth log undecodable = record { at = λ s h. h }
  stable-on_parsed eth log (event name args) = stable-on_event eth log name args

  stable-update_plug_in : (eth : Eth) (log : LogReceipt) → Preserves P (update_plug_in eth log)
  unfolding update_plug_in
  stable-update_plug_in eth log = record {
    at = λ s h. elim (Option-cases s.plug_in) [
      | inl e ↦ rw (e, update_plug_in) h
      | inr (p, e) ↦
          rw (e, update_plug_in)
            (bind-holds P (lift (vai_update eth p log))
              (λ res. modify λ t. record t {
                plug_in = some (record p { storage = update_all (State.storage p) res });
              })
              s h (λ res. at_plug_in _ s h))
    ];
  }

  pub update-Preserves : (eth : Eth) (log : LogReceipt) → Preserves P (update eth log)
  unfolding update
  update-Preserves eth log = Preserves-bind (stable-update_plug_in eth log) (λ _.
      Preserves-bind (Preserves-lift (parse_event eth users_event_abi log))
        (λ parsed. stable-on_parsed eth log parsed))
