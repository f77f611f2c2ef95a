-- ===== src/Comet.antt =====
-- The comptroller's parameters: class CometConfigs of configs/comet.py.
pub mod Update
use compound_liquidation.Prelude.{
  String, Option, none, some, List, [], ◌∷◌, Dict, insert, Result, ok, err, raised, str_eq,
  if◌then◌else◌,
}
use compound_liquidation.Prelude.Int.{ℤ}
use compound_liquidation.Prelude.Exec.{Exec, lift, modify, raise, pure, continue, ◌>>=◌, ◌>>◌}
use compound_liquidation.Chain.{
  Eth, LogReceipt, EventAbi, Parsed, skipped, undecodable, event, parse_event, uint_at, address_at,
  AbiValue,
}

pub record CometConfigs : Type 0 where
  pub liq_incentive : ℤ
  pub closs_factor : ℤ
  pub ctokens_collateral_factor : Dict ℤ
  pub last_update : ℤ

abbrev pub comet_event_abi : Dict EventAbi
comet_event_abi =
    (
      "0xaeba5a6c40a8ac138134bff1aaa65debf25971188a58804bad717f82f0ec1316",
      record { name = "NewLiquidationIncentive"; types = "uint256" ∷ "uint256" ∷ [] },
    )
    ∷ (
      "0x70483e6592cd5182d45ac970e05bc62cdcc90e9d8ef2c2dbe686cf383bcd7fc5",
      record { name = "NewCollateralFactor"; types = "address" ∷ "uint256" ∷ "uint256" ∷ [] },
    )
    ∷ []

on_liquidation_incentive : LogReceipt → List AbiValue → Exec CometConfigs (Unit {0})
on_liquidation_incentive log args = do
  new ← lift (uint_at args 1)
  modify λ c. record c { liq_incentive = new; last_update = log.block_number }

on_collateral_factor : LogReceipt → List AbiValue → Exec CometConfigs (Unit {0})
on_collateral_factor log args = do
  new ← lift (uint_at args 2)
  reserve ← lift (address_at args 0)
  modify λ c. record c {
    ctokens_collateral_factor = insert reserve new c.ctokens_collateral_factor;
    last_update = log.block_number;
  }

handle : LogReceipt → Parsed → Exec CometConfigs (Unit {0})
unfolding on_liquidation_incentive on_collateral_factor
handle log skipped = pure tt
handle log undecodable = raise raised
handle log (event name args) =
    if str_eq name "NewLiquidationIncentive"
    then on_liquidation_incentive log args
    else if str_eq name "NewCollateralFactor"
    then on_collateral_factor log args
    else pure tt

unfoldable pub update : Eth → LogReceipt → Exec CometConfigs (Unit {0})
unfolding handle
update eth log = do parsed ← lift (parse_event eth comet_event_abi log); handle log parsed
