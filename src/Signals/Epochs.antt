-- ===== src/Signals/Epochs.antt =====
-- The epochs of the reports that Signals.tx_filter_and_parsing of configs/signals.py accepts.
use compound_liquidation.Prelude.{
  ℕ, ◌+◌, ◌≤◌, String, List, lookup, get_or, arith, str_eq, Bool-cases, inl, inr, lookup-insert,
  eq_iff, take, drop, at_index, length, ◌/◌, ◌*◌,
}
use compound_liquidation.Prelude.Float.{Floats}
use compound_liquidation.Prelude.Exec.{bind-holds, lift, pure}
use compound_liquidation.Signals.{
  Signals, TxAttributes, update_epoch, report, tx_filter_and_parsing, call_data, accepted,
  from_bytes, int_of_bytes, last_five, bytes_at, observations,
}

abbrev pub epoch : String → Signals → ℕ
epoch contract s = get_or (lookup contract s.signals_epoch) 0

update_epoch-le :
    (contract other : String) (n : ℕ) (s : Signals)
    → epoch other s ≤ epoch other (update_epoch contract n s).1
unfolding update_epoch
update_epoch-le contract other n s = elim (Bool-cases (str_eq contract other)) [
  | inl e ↦ ground (arith, lookup-insert contract other n s.signals_epoch, eq_iff contract other)
  | inr e ↦ ground (arith, lookup-insert contract other n s.signals_epoch)
]

report-le :
    (contract other : String) (bs : List ℕ) (s : Signals)
    → epoch other s ≤ epoch other (report contract bs s).1
unfolding report
report-le contract other bs s =
    let later = λ (t : Signals). epoch other s ≤ epoch other t in
    let offset = from_bytes 0 (take 32 bs) + 32 in
    bind-holds later (lift (int_of_bytes (last_five (bytes_at bs offset 32)))) _ s (omega arith)
      λ n. bind-holds later (update_epoch contract n) _ s (update_epoch-le contract other n s) λ _.
        let t = (update_epoch contract n s).1 in
        let args =
          observations (from_bytes 0 (bytes_at bs (offset + 32 * 3) 32)) bs (offset + 32 * 4) in
        bind-holds {B = String × ℕ} later (lift (at_index args (length args / 2)))
          (λ price. pure (contract, price)) t (update_epoch-le contract other n s)
          λ _. update_epoch-le contract other n s

-- Parsing a pending transaction, whether it returns or raises, never lowers the epoch that is
-- stored for any aggregator.
pub tx_filter_and_parsing-le :
    {F : Type 0} ⦃fl : Floats F⦄
    → (tx : TxAttributes) (gas_price : F) (other : String) (s : Signals)
    → epoch other s ≤ epoch other (tx_filter_and_parsing tx gas_price s).1
unfolding tx_filter_and_parsing
tx_filter_and_parsing-le tx gas_price other s =
    let later = λ (t : Signals). epoch other s ≤ epoch other t in
    bind-holds later (lift (call_data tx.input)) _ s (omega arith) λ bs.
      bind-holds later (lift (accepted tx gas_price bs)) _ s (omega arith)
        λ _. report-le tx.to other (drop 4 bs) s
