-- ===== src/Users/Handlers.antt =====
-- `States.update` of configs/users.py, an event at a time. A missing key raises `KeyError`, with what was
-- written before left in place.
use compound_liquidation.Prelude.{
  ℕ, ◌+◌, String, ◌||◌, none, some, List, [], ◌∷◌, Dict, insert, update_all, ok, at_index, raised,
  drop, str_eq, if◌then◌else◌,
}
use compound_liquidation.Prelude.Int.{ℤ, ◌+ℤ◌, ◌-ℤ◌, ◌*ℤ◌, fdiv}
use compound_liquidation.Prelude.Text.{lower}
use compound_liquidation.Prelude.Float.{Floats}
use compound_liquidation.Prelude.Exec.{Exec, pure, raise, lift, modify, continue, ◌>>=◌, ◌>>◌}
use compound_liquidation.Config.{exp_scale}
use compound_liquidation.Chain.{
  Eth, LogReceipt, EventAbi, AbiValue, Parsed, skipped, undecodable, event, parse_event, uint_at,
  address_at,
}
use compound_liquidation.Events.{State, vai_update}
use compound_liquidation.Users.{States}
use compound_liquidation.Users.Access.{
  with_reserve, with_ctoken, borrow_index_of, when, add_balances, set_risks, check_user_and_reserve,
}

abbrev pub users_event_abi : Dict EventAbi
users_event_abi =
    (
      "0x1a2a22cb034d26d1854bdc6666a5b91fe25efbbb5dcad3b0355478d6f5c362a1",
      record {
        name = "RepayBorrow";
        types = "address" ∷ "address" ∷ "uint256" ∷ "uint256" ∷ "uint256" ∷ [];
      },
    )
    ∷ (
      "0x13ed6866d4e1ee6da46f845c46d7e54120883d75c5ea9a2dacc1c4ca8984ab80",
      record { name = "Borrow"; types = "address" ∷ "uint256" ∷ "uint256" ∷ "uint256" ∷ [] },
    )
    ∷ (
      "0xddf252ad1be2c89b69c2b068fc378daa952ba7f163c4a11628f55a4df523b3ef",
      record { name = "Transfer"; types = "uint256" ∷ [] },
    )
    ∷ (
      "0x4c209b5fc8ad50758f13e2e1088ba56a560dff690a1c6fef26394f4c03821c4f",
      record { name = "Mint"; types = "address" ∷ "uint256" ∷ "uint256" ∷ [] },
    )
    ∷ (
      "0xe5b754fb1abb7f01b499791d0b820ae3b6af3424ac1c59768edb53f4ec31a929",
      record { name = "Redeem"; types = "address" ∷ "uint256" ∷ "uint256" ∷ [] },
    )
    ∷ (
      "0xa91e67c5ea634cd43a12c5a482724b03de01e85ca68702a53d0c2f45cb7c1dc5",
      record { name = "ReservesAdded"; types = "address" ∷ "uint256" ∷ "uint256" ∷ [] },
    )
    ∷ (
      "0x3bad0c59cf2f06e7314077049f48a93578cd16f5ef92329f1dab1420a99c177e",
      record { name = "ReservesReduced"; types = "address" ∷ "uint256" ∷ "uint256" ∷ [] },
    )
    ∷ (
      "0x875352fb3fadeb8c0be7cbbe8ff761b308fa7033470cd0287f02f3436fd76cb9",
      record { name = "AccrueInterest"; types = "uint256" ∷ "uint256" ∷ "uint256" ∷ [] },
    )
    ∷ (
      "0x4dec04e750ca11537cabcd8a9eab06494de08da3735bc8871cd41250e190bc04",
      record {
        name = "AccrueInterest_delegate";
        types = "uint256" ∷ "uint256" ∷ "uint256" ∷ "uint256" ∷ [];
      },
    )
    ∷ ("", record { name = "NewReserveFactor"; types = "uint256" ∷ "uint256" ∷ [] })
    ∷ []

module _ {F : Type 0} ⦃fl : Floats F⦄ where
  -- a market's own balance is the part of its supply that is not out
  unfoldable pub transfer_supply :
      (reserve from_user to_user : String) → ℤ → Exec (States F) (Unit {0})
  transfer_supply reserve from_user to_user amount = do
    when (str_eq from_user (lower reserve)) (
        with_ctoken reserve
          (add_balances λ b. record b { total_supply = b.total_supply +ℤ amount }))
    when (str_eq to_user (lower reserve)) (
        with_ctoken reserve
          (add_balances λ b. record b { total_supply = b.total_supply -ℤ amount }))

  unfoldable pub transfer_balances :
      (reserve from_user to_user : String) → ℤ → Exec (States F) (Unit {0})
  transfer_balances reserve from_user to_user amount = do
    with_reserve from_user reserve (λ r. record r { col_amount = r.col_amount -ℤ amount })
    with_reserve to_user reserve (λ r. record r { col_amount = r.col_amount +ℤ amount })

  -- a transfer of cTokens between the two users of the topics
  unfoldable pub transfer : (reserve from_user to_user : String) → ℤ → Exec (States F) (Dict ℤ)
  transfer reserve from_user to_user amount = do
    change_type1 ← check_user_and_reserve from_user reserve
    change_type2 ← check_user_and_reserve to_user reserve
    transfer_supply reserve from_user to_user amount
    transfer_balances reserve from_user to_user amount
    pure (insert to_user change_type2 ((from_user, change_type1) ∷ []))

  unfoldable pub on_transfer : Eth → LogReceipt → String → List AbiValue → Exec (States F) (Dict ℤ)
  on_transfer eth log reserve args = do
    from_topic ← lift (at_index log.topics 1)
    to_topic ← lift (at_index log.topics 2)
    amount ← lift (uint_at args 0)
    transfer reserve (Eth.hex eth (drop 12 from_topic)) (Eth.hex eth (drop 12 to_topic)) amount

  -- the common part of a borrow and a repayment: the new debt, at the current borrow index
  unfoldable pub set_debt : String → String → ℤ → ℤ → Exec (States F) (Dict ℤ)
  set_debt reserve borrower amount total_borrow = do
    change_type ← check_user_and_reserve borrower reserve
    with_reserve borrower reserve (λ r. record r { debt_amount = amount })
    index ← borrow_index_of reserve
    with_reserve borrower reserve (λ r. record r { debt_interest = index })
    with_ctoken reserve (add_balances λ b. record b { total_borrow = total_borrow })
    pure ((borrower, change_type) ∷ [])

  unfoldable pub on_repay_borrow : String → List AbiValue → Exec (States F) (Dict ℤ)
  unfolding set_debt
  on_repay_borrow reserve args = do
    borrower ← lift (address_at args 1)
    amount ← lift (uint_at args 3)
    repay_amount ← lift (uint_at args 2)
    total_borrow ← lift (uint_at args 4)
    set_debt reserve borrower amount total_borrow

  unfoldable pub on_borrow : String → List AbiValue → Exec (States F) (Dict ℤ)
  unfolding set_debt
  on_borrow reserve args = do
    borrower ← lift (address_at args 0)
    amount ← lift (uint_at args 2)
    borrow_amount ← lift (uint_at args 1)
    total_borrow ← lift (uint_at args 3)
    set_debt reserve borrower amount total_borrow

  -- `deviation` is 1 for the event with one more argument in front
  unfoldable pub on_accrue_interest : ℕ → String → List AbiValue → Exec (States F) (Dict ℤ)
  on_accrue_interest deviation reserve args = do
    interest_accumulated ← lift (uint_at args (0 + deviation))
    borrow_index ← lift (uint_at args (1 + deviation))
    total_borrow ← lift (uint_at args (2 + deviation))
    with_ctoken reserve (set_risks λ r. record r { borrow_index = borrow_index })
    with_ctoken reserve (add_balances λ b. record b { total_borrow = total_borrow })
    with_ctoken reserve (λ c.
        add_balances
          (λ b. record b {
            total_reserve =
                b.total_reserve +ℤ fdiv (c.risks.reserve_factor *ℤ interest_accumulated) exp_scale;
          })
          c)
    pure []

  unfoldable pub on_reserves : String → List AbiValue → Exec (States F) (Dict ℤ)
  on_reserves reserve args = do
    new ← lift (uint_at args 2)
    with_ctoken reserve (add_balances λ b. record b { total_reserve = new })
    pure []

  unfoldable pub on_reserve_factor : String → List AbiValue → Exec (States F) (Dict ℤ)
  on_reserve_factor reserve args = do
    new ← lift (uint_at args 1)
    with_ctoken reserve (set_risks λ r. record r { reserve_factor = new })
    pure []

  -- the tests on `obj['name']`
  unfoldable pub on_event : Eth → LogReceipt → String → List AbiValue → Exec (States F) (Dict ℤ)
  on_event eth log name args =
      let reserve = Eth.to_checksum_address eth log.address in
      if str_eq name "Transfer"
      then on_transfer eth log reserve args
      else if str_eq name "RepayBorrow"
      then on_repay_borrow reserve args
      else if str_eq name "Borrow"
      then on_borrow reserve args
      else if str_eq name "AccrueInterest_delegate"
      then on_accrue_interest 1 reserve args
      else if str_eq name "AccrueInterest"
      then on_accrue_interest 0 reserve args
      else if str_eq name "ReservesAdded" || str_eq name "ReservesReduced"
      then on_reserves reserve args
      else if str_eq name "NewReserveFactor"
      then on_reserve_factor reserve args
      else pure []

  unfoldable pub on_parsed : Eth → LogReceipt → Parsed → Exec (States F) (Dict ℤ)
  on_parsed eth log skipped = pure []
  on_parsed eth log undecodable = raise raised
  on_parsed eth log (event name args) = on_event eth log name args

  -- the plug-in takes the log first, and keeps the users whose VAI debt changed
  unfoldable pub update_plug_in : Eth → LogReceipt → Exec (States F) (Unit {0})
  update_plug_in eth log s = elim s.plug_in [
    | none ↦ (ok tt, s)
    | some p ↦ continue (vai_update eth p log) s (λ res.
        modify λ t. record t {
          plug_in = some (record p { storage = update_all (State.storage p) res });
        })
  ]

  -- `States.update`: the users that changed, with the type of the change
  unfoldable pub update : Eth → LogReceipt → Exec (States F) (Dict ℤ)
  unfolding on_parsed on_event update_plug_in
  update eth log = do
    update_plug_in eth log
    parsed ← lift (parse_event eth users_event_abi log)
    on_parsed eth log parsed
