-- ===== src/Listener/Silent.antt =====
-- About the logs for which LiquidationCall.update of liquidations.py reports nothing.
use compound_liquidation.Prelude.{
  ◌≡◌, ◌⊎◌, inl, inr, List, Option, none, some, true, false, String, str_eq, at_index, ok,
  Bool-cases, >>=-eq-ok, ok_injective, ℕ, sym,
}
use compound_liquidation.Prelude.Float.{Floats}
use compound_liquidation.Chain.{Eth, LogReceipt, AbiValue, parse_event, parsed_args}
use compound_liquidation.Listener.{
  Queries, listener_event_abi, update, report_parsed, on_liquidate_borrow,
}

abbrev pub liquidate_topic : String
liquidate_topic = "0x298637f684da70674f26509b10f07ec2fbc77a335ab1e7d6215a4b2484d8bb52"

-- a log that was removed, or has another topic first
abbrev pub IsOther : Eth → LogReceipt → Type 0
IsOther eth log =
    (log.removed ≡ true)
    ⊎ ((topic : List ℕ) × (at_index log.topics 0 ≡ ok topic)
        × (str_eq liquidate_topic (Eth.hex eth topic) ≡ false))

module _ {F : Type 0} ⦃fl : Floats F⦄ (eth : Eth) (queries : Queries) (log : LogReceipt) where
  -- an event that was decoded is reported, or raises
  reported :
      (args : Option (List AbiValue))
      → report_parsed {F = F} eth queries log (parsed_args "LiquidateBorrow" args) ≡ ok none
      → ⊥
  unfolding report_parsed parsed_args
  reported none h = cc
  reported (some args) h =
      let (report, returned, h') =
        >>=-eq-ok (on_liquidate_borrow {F = F} eth queries log args) _ h in
      let impossible = ok_injective _ _ h' in cc

  -- Where LiquidationCall.update returns without a report, the log was removed, or its first topic
  -- is not the one of LiquidateBorrow: a liquidation is reported, or raises.
  pub update-none : update {F = F} eth queries log ≡ ok none → IsOther eth log
  unfolding update parse_event
  update-none h = elim (Bool-cases log.removed) [
    | inl e ↦ inl e
    | inr e ↦
        let (parsed, first, h') = >>=-eq-ok (parse_event eth listener_event_abi log) _ h in
        let (topic, topped, h'') = >>=-eq-ok (at_index log.topics 0) _ (rw e at first) in
        elim (Bool-cases (str_eq liquidate_topic (Eth.hex eth topic))) [
          | inr other ↦ inr (topic, topped, other)
          | inl same ↦
              let decoded = ok_injective _ _ (rw same at h'') in
              absurd (reported _ (rw (sym decoded) at h'))
        ]
  ]
