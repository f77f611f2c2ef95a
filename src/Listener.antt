-- ===== src/Listener.antt =====
-- The liquidations of others on the chain: LiquidationCall of liquidations.py, with what it logs as a
-- value. The base currency is USD in every configuration, so the price of the native coin is 1 there. The
-- readable time is left out.
pub mod Silent
use compound_liquidation.Prelude.{
  ℕ, String, Bool, true, false, Option, none, some, List, [], ◌∷◌, Dict, Result, ok, err, raised,
  ◌>>=◌, ◌^◌, str_eq, if◌then◌else◌,
}
use compound_liquidation.Prelude.Int.{ℤ, pos, ◌-ℤ◌, ◌*ℤ◌}
use compound_liquidation.Prelude.Float.{Floats}
use compound_liquidation.Chain.{
  Eth, LogReceipt, EventAbi, AbiValue, Parsed, skipped, undecodable, event, parse_event, uint_at,
  address_at,
}

abbrev pub listener_event_abi : Dict EventAbi
listener_event_abi =
    (
      "0x298637f684da70674f26509b10f07ec2fbc77a335ab1e7d6215a4b2484d8bb52",
      record {
        name = "LiquidateBorrow";
        types = "address" ∷ "address" ∷ "uint256" ∷ "address" ∷ "uint256" ∷ [];
      },
    )
    ∷ []

-- the transaction at a place of a block
pub record TxData : Type 0 where
  pub hash : String
  pub sender : String
  pub receiver : String

-- The two functions that compound.py sets, and the calls of `w3_liqcall`; `none` where the query of the
-- transaction raises.
pub record Queries : Type 0 where
  pub get_block_time : ℤ → Result ℤ
  pub get_reserves_value : String → ℤ → (is_col : Bool) → Result ℤ
  pub get_transaction_by_block : (block_num index : ℤ) → Option TxData
  -- the gas used and the gas price
  pub query_recpt_infos : String → ℤ × ℤ

pub record Costs (F : Type 0) : Type 0 where
  pub gas_cost_usd : F
  pub gas_cost_native : F
  pub profit_usd : F
  pub profit_native : F

pub record Report (F : Type 0) : Type 0 where
  pub tx_hash : String
  pub block_num : ℤ
  pub block_timestamp : ℤ
  pub index : ℤ
  pub liquidator : String
  pub borrower : String
  pub debt : String
  pub repay_amount : ℤ
  pub collateral : String
  pub gained_amount : ℤ
  pub revenue : ℤ
  -- the executor and the costs, where the transaction was found
  pub executor : Option String
  pub costs : Option (Costs F)

-- the liquidation contract, for which the receiver of the transaction is reported
abbrev pub liquidator_contract : String
liquidator_contract = "0x0870793286aada55d39ce7f82fb2766e8004cf43"

module _ {F : Type 0} ⦃fl : Floats F⦄ where
  open fl use {of_int, div_int, sub, mul}

  unfoldable pub costs_of : (revenue : ℤ) (gas_used gas_price : ℤ) → Costs F
  costs_of revenue gas_used gas_price =
      let gas_cost_native = div_int (gas_price *ℤ gas_used) (pos (10 ^ 18)) in
      let profit_native = sub (sub (of_int revenue) gas_cost_native) (of_int (pos 0)) in
      record {
        gas_cost_usd = mul gas_cost_native (of_int (pos 1));
        gas_cost_native = gas_cost_native;
        profit_usd = mul profit_native (of_int (pos 1));
        profit_native = profit_native;
      }

  -- the report, with what the transaction adds to it
  unfoldable pub with_tx : Queries → Report F → Option TxData → Report F
  unfolding costs_of
  with_tx queries report none = report
  with_tx queries report (some tx) =
      let (gas_used, gas_price) = Queries.query_recpt_infos queries (TxData.hash tx) in
      record report {
        tx_hash = TxData.hash tx;
        liquidator =
            if str_eq report.liquidator liquidator_contract
            then TxData.receiver tx
            else report.liquidator;
        executor = some (TxData.sender tx);
        costs = some (costs_of report.revenue gas_used gas_price);
      }

  -- the event LiquidateBorrow
  unfoldable pub on_liquidate_borrow :
      Eth → Queries → LogReceipt → List AbiValue → Result (Report F)
  unfolding with_tx
  on_liquidate_borrow eth queries log args = do
    liquidator ← address_at args 0
    user ← address_at args 1
    collateral_asset ← address_at args 3
    debt_to_cover ← uint_at args 2
    gained ← uint_at args 4
    collateral_value ← Queries.get_reserves_value queries collateral_asset gained true
    debt_value ← Queries.get_reserves_value queries log.address debt_to_cover false
    block_timestamp ← Queries.get_block_time queries log.block_number
    let report : Report F = record {
      tx_hash = Eth.hex eth log.transaction_hash;
      block_num = log.block_number;
      block_timestamp = block_timestamp;
      index = log.transaction_index;
      liquidator = liquidator;
      borrower = user;
      debt = log.address;
      repay_amount = debt_to_cover;
      collateral = collateral_asset;
      gained_amount = gained;
      revenue = collateral_value -ℤ debt_value;
      executor = none;
      costs = none;
    }
    ok (
        with_tx queries report
          (Queries.get_transaction_by_block queries log.block_number log.transaction_index))

  unfoldable pub report_parsed : Eth → Queries → LogReceipt → Parsed → Result (Option (Report F))
  unfolding on_liquidate_borrow
  report_parsed eth queries log skipped = ok none
  report_parsed eth queries log undecodable = err raised
  report_parsed eth queries log (event name args) =
      if str_eq name "LiquidateBorrow"
      then (do report ← on_liquidate_borrow eth queries log args; ok (some report))
      else ok none

  -- `LiquidationCall.update`
  unfoldable pub update : Eth → Queries → LogReceipt → Result (Option (Report F))
  unfolding report_parsed
  update eth queries log = do
    parsed ← parse_event eth listener_event_abi log
    report_parsed eth queries log parsed
