-- ===== src/Chain/Blocks.antt =====
-- About the block of the logs that converter makes of a message.
use compound_liquidation.Prelude.{
  ◌≡◌, List, [], ◌∷◌, ok, All, sym, arith, inl, inr, Option-cases, >>=-eq-ok, ok_injective,
}
use compound_liquidation.Prelude.Int.{ℤ}
use compound_liquidation.Chain.{Eth, LogReceipt}
use compound_liquidation.Chain.Light.{LogReceiptLight, LogEventLight, log_of, logs_of, converter}

abbrev pub IsAt : ℤ → List LogReceipt → Type 0
IsAt n logs = All (λ log. LogReceipt.block_number log ≡ n) logs

module _ (eth : Eth) (dct : LogReceiptLight) where
  log_of-block :
      (v : LogEventLight) (log : LogReceipt)
      → log_of eth dct v ≡ ok log
      → log.block_number ≡ dct.block_number
  unfolding log_of
  log_of-block v log h = ground arith

  logs_of-IsAt :
      (events : List LogEventLight) (logs : List LogReceipt)
      → logs_of eth dct events ≡ ok logs
      → IsAt dct.block_number logs
  unfolding logs_of
  logs_of-IsAt [] logs h = rw (sym (ok_injective _ _ h)) tt
  logs_of-IsAt (v ∷ rest) logs h =
      let (log, first, h') = >>=-eq-ok (log_of eth dct v) _ h in
      let (others, second, h'') = >>=-eq-ok (logs_of eth dct rest) _ h' in
      rw (sym (ok_injective _ _ h'')) (log_of-block v log first, logs_of-IsAt rest others second)

  -- Every log of a message is of the message's block.
  pub converter-IsAt :
      (logs : List LogReceipt) → converter eth dct ≡ ok logs → IsAt dct.block_number logs
  unfolding converter
  converter-IsAt logs h = elim (Option-cases dct.events) [
    | inl e ↦ rw (sym (ok_injective {A = List LogReceipt} [] logs (rw e at h))) tt
    | inr (events, e) ↦ logs_of-IsAt events logs (rw e at h)
  ]
