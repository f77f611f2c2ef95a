-- ===== src/Events.antt =====
-- The base class of event plug-ins and the plug-in for VAI, Venus' stable coin: class State of
-- configs/event.py and class VaiState of configs/vai.py. A skipped log gives an empty list there, which
-- the callers take as an empty dict.
use compound_liquidation.Prelude.{
  String, List, [], ◌∷◌, Dict, Result, ok, err, raised, str_eq, if◌then◌else◌, ◌>>=◌, keys,
}
use compound_liquidation.Prelude.Int.{ℤ, pos}
use compound_liquidation.Chain.{
  Eth, LogReceipt, EventAbi, Parsed, skipped, undecodable, event, parse_event, address_at, AbiValue,
}

pub record State {ℓ} (A : Type ℓ) : Type ℓ where
  pub storage : Dict A
  pub events : Dict EventAbi
  pub addres : List String

-- `State.gen_topics`
pub gen_topics {ℓ} : {A : Type ℓ} → State A → List String
gen_topics s = keys s.events

write_parsed {ℓ} :
    {A : Type ℓ} → (String → List AbiValue → Result (Dict A)) → Parsed → Result (Dict A)
write_parsed write skipped = ok []
write_parsed write undecodable = err raised
write_parsed write (event name args) = write name args

-- `State.update`, with the subclass's `write_state_with_return` as an argument
pub update_with {ℓ} :
    {A : Type ℓ}
    → (String → List AbiValue → Result (Dict A))
    → Eth
    → State A
    → LogReceipt
    → Result (Dict A)
unfolding write_parsed
update_with write eth s log = do p ← parse_event eth s.events log; write_parsed write p

abbrev pub vai_event_abi : Dict EventAbi
vai_event_abi =
    (
      "0x002e68ab1600fc5e7290e2ceaa79e2f86b4dbaca84a48421e167e0b40409218a",
      record { name = "MintVAI"; types = "address" ∷ "uint256" ∷ [] },
    )
    ∷ (
      "0x1db858e6f7e1a0d5e92c10c6507d42b3dabfe0a4867fe90c5a14d9963662ef7e",
      record { name = "RepayVAI"; types = "address" ∷ "address" ∷ "uint256" ∷ [] },
    )
    ∷ []

-- `VaiState()`, for the controller's address
unfoldable pub vai_state : String → State ℤ
vai_state vai = record { storage = []; events = vai_event_abi; addres = vai ∷ [] }

-- `VaiState.write_state_with_return`: the users whose VAI debt changed
pub write_vai_state : String → List AbiValue → Result (Dict ℤ)
write_vai_state name args =
    if str_eq name "MintVAI"
    then (do user ← address_at args 0; ok ((user, pos 1) ∷ []))
    else if str_eq name "RepayVAI"
    then (do user ← address_at args 1; ok ((user, pos 1) ∷ []))
    else ok []

-- `VaiState.update`
unfoldable pub vai_update : Eth → State ℤ → LogReceipt → Result (Dict ℤ)
unfolding update_with write_vai_state
vai_update = update_with write_vai_state

-- `MarkEnterState.write_state_with_return`: the markets that a user entered (1) or left (-1)
pub write_mark_enter : String → List AbiValue → Result (Dict (Dict ℤ))
write_mark_enter name args = do
  ctoken ← address_at args 0
  user ← address_at args 1
  ok (
      (
        user,
        if str_eq name "MarketEntered"
            then (ctoken, pos 1) ∷ []
            else if str_eq name "MarketExited"
            then (ctoken, minus_one) ∷ []
            else [],
      )
      ∷ [])
  where
    minus_one : ℤ
    minus_one = ℤ.negsuc 0
