-- ===== src/Liquidation/Start.antt =====
-- From the users below 1 to the signed transactions: signal_simulate_health_factor and liquidation_start
-- of compound.py, and sign_sending_tx_to_tasks of tx.py. Signing and the random index go in as
-- parameters; logging is left out.
use compound_liquidation.Prelude.{
  ℕ, ◌+◌, ◌^◌, String, Bool, ◌&&◌, Option, none, some, List, [], ◌∷◌, ◌++◌, Dict, Result, ok, err,
  index_error, at_key, attribute_error, type_error, length, ◌==◌, if◌then◌else◌,
}
use compound_liquidation.Prelude.Int.{ℤ, pos, ltb_ℤ}
use compound_liquidation.Prelude.Float.{Floats}
use compound_liquidation.Prelude.Exec.{Exec, pure, lift, modify, ◌>>=◌, ◌>>◌}
use compound_liquidation.Config.{exp_scale, desired_profit_scale}
use compound_liquidation.Tokens.{CtokenInfos, CtokenConfigs}
use compound_liquidation.Block.{BlockInfos}
use compound_liquidation.Comet.{CometConfigs}
use compound_liquidation.Users.{HealthFactor, current_price}
use compound_liquidation.Health.{HealthResult}
use compound_liquidation.Router.{Pool, Swap}
use compound_liquidation.Signals.Venues.{gen_oracle_params, price_scale_inverse}
use compound_liquidation.Send.{SendType, Signed, Tx, create_liq_transaction}
use compound_liquidation.Bots.{gen}
use compound_liquidation.Liquidation.{LiqPair, liquidation_simulation}
use compound_liquidation.Liquidation.Targets.{Target, profit_simulation}
use compound_liquidation.Liquidation.Guards.{Table, is_user_liquidated, set_user_liquidated}

-- the globals that a liquidation changes: the routing tokens, the table, and the accounts' nonces
pub record Desk : Type 0 where
  pub rout_tokens : List String
  pub users_to_liquidate : Table
  pub nonces : List ℕ

-- what is read: the markets, the pools and the head of the chain
pub record Scene (F : Type 0) : Type 0 where
  pub ctk : Dict CtokenInfos
  pub comet : CometConfigs
  pub block_infos : BlockInfos
  pub pools : Dict (Option Pool)
  pub swap : Swap
  pub send_type : SendType F
  pub signal_gas_price : Option ℤ
  -- the signed transaction of an account, by its place, nonce and call data
  pub sign : (account nonce : ℕ) → Tx → (input : String) → String

abbrev pub on_table : {A : Type 0} → Exec Table A → Exec Desk A
on_table m d = let (r, t) = m d.users_to_liquidate in (r, record d { users_to_liquidate = t })

abbrev pub on_tokens : {A : Type 0} → Exec (List String) A → Exec Desk A
on_tokens m d = let (r, t) = m d.rout_tokens in (r, record d { rout_tokens = t })

-- `liq_pairs[key][0].profit` of the first key
unfoldable pub first_profit : List LiqPair → Result ℤ
first_profit [] = err index_error
first_profit (p ∷ ps) = ok p.profit

module _ {F : Type 0} ⦃fl : Floats F⦄ where
  open fl use {of_int, div_int, sub, mul, div, lt, int_lt}

  -- `sign_sending_tx_to_tasks`: one signed transaction for each account, whose nonce goes up
  unfoldable pub sign_all :
      Scene F → (index input : String) → F → Tx → (account : ℕ) → List ℕ → List (Signed F) × List ℕ
  sign_all sc index input profit tx account [] = ([], [])
  sign_all sc index input profit tx account (nonce ∷ nonces) =
      let rest = sign_all sc index input profit tx (account + 1) nonces in
      (
        record { index = index; raw = Scene.sign sc account nonce tx input; profit = profit }
            ∷ rest.0,
        (nonce + 1) ∷ rest.1,
      )

  unfoldable pub sign_sending_tx_to_tasks :
      Scene F → (index input : String) → F → Tx → Exec Desk (List (Signed F))
  unfolding sign_all
  sign_sending_tx_to_tasks sc index input profit tx d =
      let done = sign_all sc index input profit tx 0 d.nonces in
      (ok done.0, record d { nonces = done.1 })

  -- the price of the network's coin in dollars, and 1 where no token gives it
  unfoldable pub coin_price : Scene F → Option String → Option ℕ → Result F
  coin_price sc none decimals = ok (of_int (pos 1))
  coin_price sc (some ctoken_addr) none = err type_error
  coin_price sc (some ctoken_addr) (some decimals) =
      scaled (current_price (Scene.ctk sc) ctoken_addr) (at_key ctoken_addr (Scene.ctk sc))
    where
      with_configs : ℤ → Option CtokenConfigs → Result F
      with_configs price none = err attribute_error
      with_configs price (some cfg) =
          let args = gen_oracle_params decimals cfg in
          ok (
            mul (div (price_scale_inverse price args.0 args.1) (of_int (pos (10 ^ decimals))))
              (of_int (pos exp_scale)))

      scaled : Result ℤ → Result CtokenInfos → Result F
      scaled (err e) infos = err e
      scaled (ok price) (err e) = err e
      scaled (ok price) (ok infos) = with_configs price infos.configs

  -- what the gas costs, in dollars
  unfoldable pub gas_cost : Scene F → (gas_fee : ℤ) → F → F
  gas_cost sc gas_fee price =
      mul
        (mul (div_int gas_fee (pos (10 ^ 18)))
          (of_int (SendType.estimate_gas (Scene.send_type sc))))
        price

  -- the last tests, and the table and the nonces
  unfoldable pub finish :
      Scene F → (index usr : String) → Target → Tx → F → Exec Desk (List (Signed F))
  unfolding sign_sending_tx_to_tasks
  finish sc index usr t tx cost =
      let profit = sub (of_int t.pair.profit) cost in
      if lt profit (of_int (pos 0))
      then pure []
      else if length t.routs.paths == 0
      then pure []
      else (do
        modify λ d. record d {
          users_to_liquidate =
              set_user_liquidated index usr t.pair.debt_ctoken t.pair.repay_amount
                d.users_to_liquidate;
        }
        sign_sending_tx_to_tasks sc index
            (gen usr t.pair.debt_ctoken t.pair.col_ctoken t.routs.paths) profit tx)

  unfoldable pub liquidation_start :
      Scene F → (index usr : String) → Target → Exec Desk (List (Signed F))
  unfolding coin_price gas_cost finish
  liquidation_start sc index usr t =
      on_table (is_user_liquidated F usr t.pair.debt_ctoken t.pair.repay_amount) >>= go
    where
      paid : Tx × ℤ → Exec Desk (List (Signed F))
      paid (tx, gas_fee) = do
        let send_type = Scene.send_type sc
        price ← lift (coin_price sc send_type.price_token send_type.price_decimals)
        finish sc index usr t tx (gas_cost sc gas_fee price)

      go : Option String → Exec Desk (List (Signed F))
      go (some prev_index) = pure []
      go none =
          lift (
            create_liq_transaction (Scene.send_type sc) t.pair.profit (Scene.block_infos sc)
              (Scene.signal_gas_price sc))
          >>= paid

  -- `1 > value / HF_THRESHOLD > 0`, at the threshold 1
  unfoldable pub is_liquidatable : HealthFactor F → Bool
  is_liquidatable hf =
      lt (div hf.value (of_int (pos 1))) (of_int (pos 1))
      && lt (of_int (pos 0)) (div hf.value (of_int (pos 1)))

  -- one result of the loop
  unfoldable pub simulate_one :
      Scene F → (index : String) → HealthResult F → Exec Desk (List (Signed F))
  unfolding is_liquidatable first_profit liquidation_start
  simulate_one sc index res =
      if is_liquidatable (HealthResult.health_factor res)
      then (lift
            (liquidation_simulation F (HealthResult.reserves res) (Scene.ctk sc) (Scene.comet sc))
          >>= paired)
      else pure []
    where
      start : Option Target → Exec Desk (List (Signed F))
      start none = pure []
      start (some t) =
          if ltb_ℤ t.pair.profit (pos desired_profit_scale)
          then pure []
          else liquidation_start sc index (HealthResult.usr res) t

      revenue : Dict (List LiqPair) → ℤ → Exec Desk (List (Signed F))
      revenue pairs appr =
          if ltb_ℤ appr (pos desired_profit_scale)
          then pure []
          else (on_tokens (profit_simulation (Scene.ctk sc) (Scene.swap sc) (Scene.pools sc) pairs)
              >>= start)

      paired : Dict (List LiqPair) → Exec Desk (List (Signed F))
      paired [] = pure []
      paired ((key, pairs) ∷ rest) = lift (first_profit pairs) >>= revenue ((key, pairs) ∷ rest)

  -- the loop over the results, each with the index drawn for it
  unfoldable pub signal_simulate_health_factor :
      Scene F → List (String × HealthResult F) → Exec Desk (List (Signed F))
  unfolding simulate_one
  signal_simulate_health_factor sc [] = pure []
  signal_simulate_health_factor sc ((index, res) ∷ results) = do
    tasks ← simulate_one sc index res
    rest ← signal_simulate_health_factor sc results
    pure (tasks ++ rest)
