-- ===== src/Users/Conservation.antt =====
-- About on_transfer of cTokens and the sum of each market's cTokens over all users.
use compound_liquidation.Prelude.{
  Bool-cases, inl, inr, at_index, String, ◌≡◌, refl, ◌∙◌, true, List, arith, str_eq,
}
use compound_liquidation.Prelude.Int.{ℤ, ◌+ℤ◌, ◌-ℤ◌, int_laws, parts_of_eq}
use compound_liquidation.Prelude.Float.{Floats}
use compound_liquidation.Prelude.Exec.{lift, bind-holds}
use compound_liquidation.Chain.{Eth, LogReceipt, AbiValue, uint_at}
use compound_liquidation.Tokens.{CompReserve}
use compound_liquidation.Users.{States}
use compound_liquidation.Users.Access.{with_reserve, with_ctoken, check_user_and_reserve}
use compound_liquidation.Users.Handlers.{transfer_supply, transfer_balances, transfer, on_transfer}
use compound_liquidation.Users.Holds.{has, with_reserve-total, has-with_reserve}
use compound_liquidation.Users.Checked.{total_held-check, check-total, has-check, has-check_of_has}
use compound_liquidation.Users.Sums.{total_held}

module _ {F : Type 0} ⦃fl : Floats F⦄ where
  users-transfer_supply :
      (reserve from_user to_user : String) (amount : ℤ) (s : States F)
      → (transfer_supply reserve from_user to_user amount s).1.users_states ≡ s.users_states
  unfolding transfer_supply with_ctoken
  users-transfer_supply reserve from_user to_user amount s = ground arith

  total_held-balances :
      (q reserve from_user to_user : String) (amount : ℤ) (s : States F)
      → has from_user reserve s.users_states ≡ true
      → has to_user reserve s.users_states ≡ true
      → total_held q (transfer_balances reserve from_user to_user amount s).1.users_states
        ≡ total_held q s.users_states
  unfolding transfer_balances
  total_held-balances q reserve from_user to_user amount s hf ht =
      let less = λ (r : CompReserve). record r { col_amount = r.col_amount -ℤ amount } in
      let more = λ (r : CompReserve). record r { col_amount = r.col_amount +ℤ amount } in
      let (r, done, first) = with_reserve-total q from_user reserve less s hf in
      let s' = (with_reserve from_user reserve less s).1 in
      let there = has-with_reserve to_user reserve from_user reserve less s ht in
      let (r', done', second) = with_reserve-total q to_user reserve more s' there in
      elim (Bool-cases (str_eq reserve q)) [
        | inl e ↦
            rw done (omega (int_laws, parts_of_eq (rw e at first), parts_of_eq (rw e at second)))
        | inr e ↦
            rw done (omega (int_laws, parts_of_eq (rw e at first), parts_of_eq (rw e at second)))
      ]

  pub total_held-transfer :
      (q reserve from_user to_user : String) (amount : ℤ) (s : States F)
      → total_held q (transfer reserve from_user to_user amount s).1.users_states
        ≡ total_held q s.users_states
  unfolding transfer
  total_held-transfer q reserve from_user to_user amount s =
      let (n, done) = check-total from_user reserve s in
      let s' = (check_user_and_reserve from_user reserve s).1 in
      let (n', done') = check-total to_user reserve s' in
      let s'' = (check_user_and_reserve to_user reserve s').1 in
      let hf =
        has-check_of_has from_user reserve to_user reserve s' (has-check from_user reserve s) in
      let ht = has-check to_user reserve s' in
      let t = (transfer_supply reserve from_user to_user amount s'').1 in
      let same = users-transfer_supply reserve from_user to_user amount s'' in
      let same_total =
        λ (r : States F). total_held q r.users_states ≡ total_held q s.users_states in
      let start : same_total s'' =
        total_held-check q to_user reserve s' ∙ total_held-check q from_user reserve s in
      let paid : same_total (transfer_balances reserve from_user to_user amount t).1 =
        total_held-balances q reserve from_user to_user amount t (rw same hf) (rw same ht)
        ∙ rw same start in
      rw (done, done')
        (bind-holds same_total (transfer_supply reserve from_user to_user amount) _ s''
          (rw same start)
          λ _.
            bind-holds same_total (transfer_balances reserve from_user to_user amount) _ t paid
              λ _. paid)

  -- Handling a Transfer log leaves the cTokens that all users hold together of every market
  -- unchanged, whatever the log's topics and arguments and whether the handler returns or raises.
  pub total_held-on_transfer :
      (q : String) (eth : Eth) (log : LogReceipt) (reserve : String) (args : List AbiValue)
      (s : States F)
      → total_held q (on_transfer eth log reserve args s).1.users_states
        ≡ total_held q s.users_states
  unfolding on_transfer
  total_held-on_transfer q eth log reserve args s =
      let same_total =
        λ (r : States F). total_held q r.users_states ≡ total_held q s.users_states in
      bind-holds same_total (lift (at_index log.topics 1)) _ s refl λ a.
        bind-holds same_total (lift (at_index log.topics 2)) _ s refl λ b.
          bind-holds same_total (lift (uint_at args 0)) _ s refl
            λ amount. total_held-transfer q reserve _ _ amount s
