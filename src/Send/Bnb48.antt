-- ===== src/Send/Bnb48.antt =====
-- BnB48Sender of transaction/send.py. Signing and the relay's answers are not modelled: the code never
-- reaches the relay, since the list of transactions is added to a text before.
pub mod Offers
use compound_liquidation.Prelude.{
  ◌+◌, ℕ, ◌^◌, String, Option, none, some, List, [], ◌∷◌, Dict, Result, ok, err, zero_division,
  type_error, attribute_error, if◌then◌else◌,
}
use compound_liquidation.Prelude.Int.{ℤ, pos}
use compound_liquidation.Prelude.Float.{Floats}
use compound_liquidation.Prelude.Exec.{Exec, pure, lift, modify, ◌>>=◌, ◌>>◌}
use compound_liquidation.Send.{Sender, Signed, is_held, bribe, best_offers}

pub record Bnb48 (F : Type 0) : Type 0 where
  pub sender : Sender
  pub bnb_price : F
  -- the expiry of the bundles by their ids
  pub storage : Dict ℤ
  -- of `bnb48.acc`
  pub nonce : ℕ
  pub balance : F
  pub bnb_gas_price : F

module _ {F : Type 0} ⦃fl : Floats F⦄ where
  open fl use {of_int, div_int, add, eq}

  abbrev pub next_nonce : Exec (Bnb48 F) (Unit {0})
  next_nonce = modify λ s. record s { nonce = Bnb48.nonce s + 1 }

  -- `BnB48Sender.x`: a bundle that is worth its bribe takes a nonce for the transfer, and then adds
  -- the transfer, a text, to the list of the transactions
  unfoldable pub x : (profits : F) → Exec (Bnb48 F) (Unit {0})
  x profits s =
      if eq (Bnb48.bnb_price s) (of_int (pos 0))
      then (err zero_division, s)
      else elim (bribe profits (Bnb48.bnb_price s) (Bnb48.balance s) (Bnb48.bnb_gas_price s)) [
        | none ↦ (ok tt, s)
        | some mev_gas_price ↦ (err type_error, record s { nonce = Bnb48.nonce s + 1 })
      ]

  -- the profits of the offers of one bundle
  unfoldable pub sum_profits : F → List (F × String) → F
  sum_profits sum [] = sum
  sum_profits sum (offer ∷ offers) = sum_profits (add sum offer.0) offers

  -- the last loop: a bundle for each offer
  unfoldable pub send_each : List (F × String) → Exec (Bnb48 F) (Unit {0})
  send_each [] = pure tt
  send_each (offer ∷ offers) = do x offer.0; next_nonce; send_each offers

  -- the bundles of the offers, and one more nonce
  unfoldable pub send_offers : List (F × String) → Exec (Bnb48 F) (Unit {0})
  send_offers offers = send_each offers >> next_nonce

  -- `BnB48Sender.send_transactions`, where `signal` is the raw transaction of the signal
  unfoldable pub send_transactions :
      List (Signed F) → (signal : Option String) → Exec (Bnb48 F) (Unit {0})
  send_transactions results signal s =
      let offers = best_offers results in
      if is_held (Bnb48.sender s) results then (ok tt, s) else elim signal [
        | none ↦ send_offers offers s
        | some raw_tx ↦ (x (sum_profits (of_int (pos 0)) offers) >> send_offers offers) s
      ]

  -- `BnB48Sender.update`, where the nonce and the balance are queried of the chain: the class has no
  -- `get_puissant_status`
  unfoldable pub update_sender :
      (nonce : Result ℕ) (balance : Result F) (bnb_price_with_decimals : ℤ)
      → Exec (Bnb48 F) (Unit {0})
  update_sender nonce balance bnb_price_with_decimals s = elim (Bnb48.storage s) [
    | [] ↦
        (do
          n ← lift nonce
          modify λ t. record t { nonce = n }
          b ← lift balance
          modify λ t. record t {
            balance = b;
            bnb_price = div_int bnb_price_with_decimals (pos (10 ^ 18));
          })
          s
    | e ∷ rest ↦ (err attribute_error, s)
  ]
