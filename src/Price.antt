-- ===== src/Price.antt =====
-- The cached price of a market: class CtokenPrice of configs/signals.py. A pending oracle transaction
-- overwrites it, the confirmed event settles it, and a price that stays unconfirmed is taken back.
pub mod Pending
use compound_liquidation.Prelude.{
  ℕ, ◌*◌, String, Bool, true, false, not, ◌&&◌, List, [], ◌∷◌, Dict, Result, ok, err, ◌>>=◌, str_eq,
  if◌then◌else◌,
}
use compound_liquidation.Prelude.Int.{ℤ, pos, ◌+ℤ◌, ltb_ℤ}
use compound_liquidation.Prelude.Exec
use compound_liquidation.Prelude.Exec.{Exec}
use compound_liquidation.Config.{intvl}
use compound_liquidation.Chain.{
  Eth, LogReceipt, EventAbi, Parsed, skipped, undecodable, event, parse_event, uint_at,
}

pub record CtokenPrice : Type 0 where
  pub price_current : ℤ
  pub price_cache : ℤ
  pub last_update : ℤ
  pub is_comfired : Bool

unfoldable pub new_ctoken_price : ℤ → ℤ → CtokenPrice
new_ctoken_price price last_update = record {
  price_current = price;
  price_cache = pos 0;
  last_update = last_update;
  is_comfired = true;
}

-- by a pending signal
unfoldable pub update : ℤ → ℤ → CtokenPrice → CtokenPrice
update new_price last_update p = record {
  price_current = new_price;
  price_cache = if p.is_comfired then p.price_current else p.price_cache;
  last_update = last_update;
  is_comfired = false;
}

-- when it is not confirmed for a long time; `now` is `int(time.time())`
unfoldable pub revert : ℤ → CtokenPrice → CtokenPrice
revert now p =
    if not p.is_comfired && ltb_ℤ (p.last_update +ℤ pos (intvl * 5)) now
    then record p { price_current = p.price_cache; price_cache = pos 0; is_comfired = true }
    else p

abbrev pub signals_event_abi : Dict EventAbi
signals_event_abi =
    (
      "0xf6a97944f31ea060dfde0566e4167c1a1082551e64b60ecb14d599a9d023d451",
      record {
        name = "NewTransmission";
        types = "int192" ∷ "address" ∷ "int192[]" ∷ "bytes" ∷ "bytes32" ∷ [];
      },
    )
    ∷ []

-- `int(scale_func(answer, *args))` is the argument `scale`, which may raise.
settle : (ℤ → Result ℤ) → Parsed → Exec CtokenPrice (Unit {0})
settle scale skipped p = (ok tt, p)
settle scale undecodable p = (ok tt, p)
settle scale (event name args) p =
    if str_eq name "NewTransmission"
    then Exec.continue (do answer ← uint_at args 0; scale answer) p
        (λ new_price. Exec.modify λ q. record q { price_current = new_price; is_comfired = true })
    else (ok tt, p)

-- by the event of the chain
unfoldable pub confirm : Eth → LogReceipt → (ℤ → Result ℤ) → Exec CtokenPrice (Unit {0})
unfolding settle
confirm eth log scale p = Exec.continue (parse_event eth signals_event_abi log) p (settle scale)
