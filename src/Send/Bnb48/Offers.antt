-- ===== src/Send/Bnb48/Offers.antt =====
-- About the offers that BnB48Sender.send_transactions sends.
use compound_liquidation.Prelude.{
  ◌+◌, String, ◌≡◌, sym, false, Option, none, some, List, [], ◌∷◌, ok, length, All, arith, ap, ◌∙◌,
}
use mathlib.Core.Path.{subst}
use compound_liquidation.Prelude.Int.{pos}
use compound_liquidation.Prelude.Float.{Floats}
use compound_liquidation.Prelude.Exec.{Exec, Returns, bind-Returns, ◌>>◌}
use compound_liquidation.Send.{Signed, is_held, bribe, best_offers}
use compound_liquidation.Send.Bnb48.{
  Bnb48, next_nonce, x, sum_profits, send_each, send_offers, send_transactions,
}

module _ {F : Type 0} ⦃fl : Floats F⦄ where
  -- an offer that is worth no bribe
  abbrev pub IsRefused : Bnb48 F → F × String → Type 0
  IsRefused s offer = bribe offer.0 s.bnb_price s.balance s.bnb_gas_price ≡ none

  abbrev Sent : Bnb48 F → List (F × String) → Bnb48 F → Type 0
  Sent s offers t = All (IsRefused s) offers × (t ≡ record s { nonce = s.nonce + length offers })

  -- the steps after a bundle that returned
  after-x :
      {A : Type 0} (profits : F) (s : Bnb48 F) (rest : Exec (Bnb48 F) A) (a : A)
      → ((x profits >> rest) s).0 ≡ ok a
      → (bribe profits s.bnb_price s.balance s.bnb_gas_price ≡ none)
        × ((x profits >> rest) s ≡ rest s)
  unfolding x
  after-x profits s rest a h = ground arith

  send_each-Sent :
      (offers : List (F × String)) (s : Bnb48 F) → Returns (Sent s offers) (send_each offers) s
  unfolding send_each
  send_each-Sent [] s a h = (tt, ground arith)
  send_each-Sent (offer ∷ offers) s a h =
      let rest = next_nonce >> send_each offers in
      let (refused, same) = after-x offer.0 s rest a h in
      let (others, now) =
        send_each-Sent offers (record s { nonce = s.nonce + 1 }) a (ap (λ r. r.0) (sym same) ∙ h) in
      subst (λ r. Sent s (offer ∷ offers) r.1) (sym same)
        ((refused, others), now ∙ ap (λ n. record s { nonce = n }) (omega arith))

  abbrev AllSent : Bnb48 F → List (F × String) → Bnb48 F → Type 0
  AllSent s offers t =
      All (IsRefused s) offers × (t ≡ record s { nonce = s.nonce + length offers + 1 })

  send_offers-AllSent :
      (offers : List (F × String)) (s : Bnb48 F) → Returns (AllSent s offers) (send_offers offers) s
  unfolding send_offers
  send_offers-AllSent offers s =
      bind-Returns (AllSent s offers) (send_each offers) (λ _. next_nonce) s
        (λ u returned a h.
          let (refused, now) = send_each-Sent offers s u returned in
          (refused, ap {B = Bnb48 F} (λ t. record t { nonce = Bnb48.nonce t + 1 }) now))

  -- Where the sender is not held and send_transactions returns, each of the best offers was worth
  -- no bribe, and the sender is as it was but for the nonce, which went up by the number of these
  -- offers and one.
  pub send_transactions-IsRefused :
      (results : List (Signed F)) (signal : Option String) (s : Bnb48 F)
      → is_held s.sender results ≡ false
      → (send_transactions results signal s).0 ≡ ok tt
      → All (IsRefused s) (best_offers results)
        × ((send_transactions results signal s).1
            ≡ record s { nonce = s.nonce + length (best_offers results) + 1 })
  unfolding send_transactions
  send_transactions-IsRefused results none s held h =
      rw held (send_offers-AllSent (best_offers results) s tt (rw held at h))
  send_transactions-IsRefused results (some raw) s held h =
      let offers = best_offers results in
      let (refused, same) =
        after-x (sum_profits (fl.of_int (pos 0)) offers) s (send_offers offers) tt (rw held at h) in
      rw held (
        subst (λ r. AllSent s offers r.1) (sym same)
          (send_offers-AllSent offers s tt (ap (λ r. r.0) (sym same) ∙ (rw held at h))))
