-- ===== src/Send.antt =====
-- Sending a liquidation: transaction/types.py, and the send types and senders of transaction/send.py.
-- Signing, the relays and the sockets are not modelled: a sender's result is what it hands to them.
pub mod Bnb48
use compound_liquidation.Prelude.{
  leb, ◌+◌, ℕ, ◌^◌, String, Bool, true, Option, none, some, List, [], ◌∷◌, map, Dict, lookup,
  insert, Result, ok, err, zero_division, take, length, ◌==◌, ◌&&◌, str_eq, if◌then◌else◌,
}
use compound_liquidation.Prelude.Int.{ℤ, pos, ◌*ℤ◌, eqb_ℤ}
use compound_liquidation.Prelude.Sort.{sort_by}
use compound_liquidation.Prelude.Text.{str_lt}
use compound_liquidation.Prelude.Float.{Floats}
use compound_liquidation.Block.{BlockInfos}

-- `TxParams`, with the fields of both types
pub record Tx : Type 0 where
  pub value : ℤ
  pub gas : ℤ
  pub max_fee_per_gas : Option ℤ
  pub max_priority_fee_per_gas : Option ℤ
  pub gas_price : Option ℤ

-- the two functions that a send type holds
pub data TxKind : Type 0 where
  type0 type2 : TxKind

pub record SendType (F : Type 0) : Type 0 where
  pub gas_limit : ℤ
  pub estimate_gas : ℤ
  pub mev_ratio : F
  pub aggr : String
  pub map_sig : TxKind
  pub map_net : TxKind
  pub price_token : Option String
  pub price_decimals : Option ℕ

module _ {F : Type 0} ⦃fl : Floats F⦄ where
  open fl use {of_int, decimal, div_int, add, sub, mul, div, trunc, lt}

  unfoldable pub send_type :
      (gas_limit estimate_gas : ℕ) → F → String → (map_sig map_net : TxKind) → SendType F
  send_type gas_limit estimate_gas mev_ratio aggr map_sig map_net = record {
    gas_limit = pos gas_limit;
    estimate_gas = pos estimate_gas;
    mev_ratio = mev_ratio;
    aggr = aggr;
    map_sig = map_sig;
    map_net = map_net;
    price_token = none;
    price_decimals = none;
  }

  unfoldable pub init_send_type : String → Option (SendType F)
  unfolding send_type
  init_send_type net =
      if str_eq net "Polygon"
      then some (send_type 1200000 500000 (of_int (pos 0)) "" type0 type2)
      else if str_eq net "BSC"
      then some (
          send_type 3000000 1500000 (of_int (pos 0)) "0x137924D7C36816E0DcAF016eB617Cc2C92C05782"
            type0 type0)
      else if str_eq net "Ethereum"
      then some (send_type 3000000 1500000 (decimal (pos 8) 1) "" type2 type2)
      else none

  -- the transaction, and the fee that it pays for a unit of gas
  unfoldable pub create_type2_tx : (gas_fee base_fee : ℤ) → F → Tx × ℤ
  create_type2_tx gas_fee base_fee mev =
      let max_fee = trunc (add mev (of_int (base_fee *ℤ pos 2))) in
      (
        record {
          value = pos 0;
          gas = pos 22000;
          max_fee_per_gas = some max_fee;
          max_priority_fee_per_gas = some (trunc mev);
          gas_price = none;
        },
        max_fee,
      )

  unfoldable pub create_type0_tx : (gas_fee base_fee : ℤ) → F → Tx × ℤ
  create_type0_tx gas_fee base_fee mev = (
    record {
      value = pos 0;
      gas = pos 22000;
      max_fee_per_gas = none;
      max_priority_fee_per_gas = none;
      gas_price = some gas_fee;
    },
    gas_fee,
  )

  unfoldable pub create_tx : TxKind → (gas_fee base_fee : ℤ) → F → Tx × ℤ
  unfolding create_type0_tx create_type2_tx
  create_tx type0 = create_type0_tx
  create_tx type2 = create_type2_tx

  -- with the gas price of the signal, or the network's where there is none
  unfoldable pub create_liq_transaction :
      SendType F → (revenue : ℤ) → BlockInfos → (signal_gas_price : Option ℤ) → Result (Tx × ℤ)
  unfolding create_tx
  create_liq_transaction send_type revenue block_infos signal =
      if eqb_ℤ send_type.estimate_gas (pos 0) then err zero_division else ok (sent signal)
    where
      mev : F
      mev = mul send_type.mev_ratio (
          sub (mul (div_int revenue send_type.estimate_gas) (of_int (pos (10 ^ 18))))
            (of_int block_infos.base_fee))

      sent : Option ℤ → Tx × ℤ
      sent none = create_tx send_type.map_net block_infos.gas_price block_infos.base_fee mev
      sent (some gas_fee) = create_tx send_type.map_sig gas_fee block_infos.base_fee mev

-- `[index, signed_tx_raw, profit]`
pub record Signed (F : Type 0) : Type 0 where
  pub index : String
  pub raw : String
  pub profit : F

-- `Sender`
pub record Sender : Type 0 where
  pub lock : Bool
  pub counter : ℕ

-- `self.lock and len(results) == 0`
unfoldable pub is_held : {F : Type 0} → Sender → List (Signed F) → Bool
is_held s results = s.lock && (length results == 0)

-- `WsSender.send_transactions`: the raw transactions, a task each
pub ws_tasks : {F : Type 0} → Sender → List (Signed F) → List String
unfolding is_held
ws_tasks s results = if is_held s results then [] else map (λ r. Signed.raw r) results

-- `FlashSender.send_transactions`: a bundle for each result, behind the signal's transaction
unfoldable pub flash_bundles :
    {F : Type 0} → Sender → List (Signed F) → (signal : Option String) → List (String × List String)
unfolding is_held
flash_bundles s results signal =
    if is_held s results
    then []
    else map (λ r. (Signed.index r, bundle (Signed.raw r) signal)) results
  where
    bundle : String → Option String → List String
    bundle raw none = raw ∷ []
    bundle raw (some tx) = tx ∷ raw ∷ []

-- the first loop of `BnB48Sender.send_transactions`: one transaction for each index
unfoldable pub dedup_from : {F : Type 0} → Dict ℕ → List (Signed F) → List (F × String)
dedup_from seen [] = []
dedup_from seen (r ∷ results) =
    let kept =
      (Signed.profit r, Signed.raw r) ∷ dedup_from (insert (Signed.index r) 1 seen) results in
    let skipped = dedup_from seen results in
    elim (lookup (Signed.index r) seen) [ none ↦ kept | some n ↦ skipped ]

module _ {F : Type 0} ⦃fl : Floats F⦄ where
  -- the order of the lists `[profit, signed_tx_raw]`
  unfoldable pub offer_lt : F × String → F × String → Bool
  offer_lt a b = if Floats.eq fl a.0 b.0 then str_lt a.1 b.1 else Floats.lt fl a.0 b.0

  -- the two offers that are sent, the more profitable first
  unfoldable pub best_offers : List (Signed F) → List (F × String)
  unfolding dedup_from offer_lt
  best_offers results = take 2 (sort_by (λ a b. offer_lt b a) (dedup_from [] results))

  -- the gas price of the bribe in `BnB48Sender.x`, where the bundle is worth sending
  unfoldable pub bribe : (profits bnb_price balance bnb_gas_price : F) → Option F
  bribe profits bnb_price balance bnb_gas_price =
      let wanted = Floats.div fl (Floats.mul fl (Floats.decimal fl (pos 5) 1) profits) bnb_price in
      let most =
        Floats.div fl (Floats.mul fl balance (Floats.of_int fl (pos 22000)))
          (Floats.of_int fl (pos 21000)) in
      let bnb_cost = if Floats.lt fl most wanted then most else wanted in
      let mev_gas_price = Floats.div fl bnb_cost (Floats.of_int fl (pos 21000)) in
      if Floats.lt fl mev_gas_price bnb_gas_price then none else some mev_gas_price

-- `process_receipts` of compound.py, for the statuses of the receipts
unfoldable pub process_receipts : List ℕ → Sender → Sender
process_receipts [] s = s
process_receipts (status ∷ rest) s =
    let counted = if status == 0 then record s { counter = s.counter + 1 } else s in
    process_receipts rest
      (if leb 5 counted.counter then record counted { lock = true } else counted)
