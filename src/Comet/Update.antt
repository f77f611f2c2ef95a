-- ===== src/Comet/Update.antt =====
-- About the block of the last update and the events of the comptroller.
use compound_liquidation.Prelude.{◌≡◌, ◌⊎◌, arith}
use compound_liquidation.Chain.{Eth, LogReceipt}
use compound_liquidation.Comet.{
  CometConfigs, update, on_liquidation_incentive, on_collateral_factor, handle,
}

-- An event moves the block of the last update to that of its log, or leaves it.
pub block-update :
    (eth : Eth) (log : LogReceipt) (c : CometConfigs)
    → ((update eth log c).1.last_update ≡ c.last_update)
      ⊎ ((update eth log c).1.last_update ≡ log.block_number)
unfolding update on_liquidation_incentive on_collateral_factor handle
block-update eth log c = ground arith
