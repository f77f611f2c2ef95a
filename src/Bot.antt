-- ===== src/Bot.antt =====
-- The globals of compound.py and what its callbacks share. A callback changes the globals and may raise;
-- what it wrote before stays. Network calls are the record `Outside`, and each may raise.
pub mod Logs
pub mod Feeds
pub mod Rounds
pub mod Series
pub mod Nearby
pub mod Blocks
pub mod Start
use compound_liquidation.Prelude.{
  ℕ, String, Bool, true, Option, none, some, List, [], ◌∷◌, Dict, lookup, adjust, keys, update_all,
  Result, ok, err, key_error, ◌>>=◌,
}
use compound_liquidation.Prelude.Int.{ℤ, ◌*ℤ◌, fdiv}
use compound_liquidation.Prelude.Float.{Floats}
use compound_liquidation.Prelude.Exec
use compound_liquidation.Prelude.Exec.{Exec}
use compound_liquidation.Config.{exp_scale}
use compound_liquidation.Chain.{Eth, LogReceipt}
use compound_liquidation.Tokens.{CtokenInfos, CtokenRiskParams}
use compound_liquidation.Block.{BlockInfos}
use compound_liquidation.Comet.{CometConfigs}
use compound_liquidation.Signals.{Signals}
use compound_liquidation.Users.{UserStates, States, current_price}
use compound_liquidation.Users.HighProfit
use compound_liquidation.Users.HighProfit.{HighProfitSates}
use compound_liquidation.Health.{
  HealthResult, gen_users_with_args, signal_calculate_health_factor, write_health_factor,
}
use compound_liquidation.Health.Trimming.{users_trimming}
use compound_liquidation.Router.{Pool, Swap}
use compound_liquidation.Send.{SendType, Tx}
use compound_liquidation.Send.Bnb48.{Bnb48}
use compound_liquidation.Liquidation.Start.{Desk}

-- `signal_recv`, once a signal was received
pub record Signal : Type 0 where
  pub hash : String
  pub recv_height : ℤ
  pub tx_type : String
  pub gas_price : ℤ
  pub priority_fee : ℤ
  pub raw_tx : String

pub record World (F : Type 0) : Type 0 where
  -- `states`, with what `HighProfitSates` adds to it
  pub states : States F
  pub high : HighProfitSates F
  pub comet : CometConfigs
  pub signals : Signals
  pub block_infos : BlockInfos
  -- the users near liquidation of each aggregator
  pub users_pre_filtered : Dict (List String)
  pub users_continue : List (List String)
  pub users_pending : List (List String)
  pub desk : Desk
  pub sender : Bnb48 F
  pub signal_recv : Option Signal

-- What the callbacks call outside of the program, and the globals that do not change.
pub record Outside (F : Type 0) : Type 0 where
  pub eth : Eth
  pub reserves_init : List String
  pub pools : Dict (Option Pool)
  pub swap : Swap
  pub send_type : SendType F
  -- the comptroller's `getAssetsIn`, and the calls of `w3_liq`
  pub get_assets_in : String → List String
  pub query_user_vai_repay : String → Result ℤ
  pub query_exchange_rate : String → Result ℤ
  pub gas_price : Result ℤ
  -- of an account, by its place
  pub transaction_count : ℕ → Result ℕ
  -- the nonce and the balance of the sender's account
  pub sender_nonce : Result ℕ
  pub sender_balance : Result F
  -- the index drawn for the n-th result, and signing
  pub unique_id : ℕ → String
  pub sign : (account nonce : ℕ) → Tx → (input : String) → String

module _ {F : Type 0} where
  abbrev pub on_states : {A : Type 0} → Exec (States F) A → Exec (World F) A
  on_states m w = let (r, s) = m w.states in (r, record w { states = s })

  -- a method of `HighProfitSates`
  abbrev pub on_high : {A : Type 0} → Exec (States F × HighProfitSates F) A → Exec (World F) A
  on_high m w = let (r, s) = m (w.states, w.high) in (r, record w { states = s.0; high = s.1 })

  abbrev pub on_comet : {A : Type 0} → Exec CometConfigs A → Exec (World F) A
  on_comet m w = let (r, c) = m w.comet in (r, record w { comet = c })

  abbrev pub on_signals : {A : Type 0} → Exec Signals A → Exec (World F) A
  on_signals m w = let (r, s) = m w.signals in (r, record w { signals = s })

  abbrev pub on_desk : {A : Type 0} → Exec Desk A → Exec (World F) A
  on_desk m w = let (r, d) = m w.desk in (r, record w { desk = d })

  abbrev pub on_sender : {A : Type 0} → Exec (Bnb48 F) A → Exec (World F) A
  on_sender m w = let (r, s) = m w.sender in (r, record w { sender = s })

  -- a value that is computed from the globals, and may raise
  abbrev pub reads : {A : Type 0} → (World F → Result A) → Exec (World F) A
  reads f w = (f w, w)

  -- `get_reserves_value`, of an amount of the underlying token, or of cTokens where `is_col`
  unfoldable pub get_reserves_value : Eth → States F → String → ℤ → Bool → Result ℤ
  get_reserves_value eth s token_addr amount is_col = do
    let token = Eth.to_checksum_address eth token_addr
    price ← current_price s.ctokens token
    infos ← at_ctoken (lookup token s.ctokens)
    ok (value infos.risks.exchange_rate price is_col)
    where
      at_ctoken : Option CtokenInfos → Result CtokenInfos
      at_ctoken none = err key_error
      at_ctoken (some c) = ok c

      value : (ex_rate price : ℤ) → Bool → ℤ
      value ex_rate price true = fdiv (fdiv (amount *ℤ ex_rate) exp_scale *ℤ price) exp_scale
      value ex_rate price Bool.false = fdiv (amount *ℤ price) exp_scale

module _ {F : Type 0} ⦃fl : Floats F⦄ where
  -- the loop over the logs of a message
  unfoldable pub updates :
      Eth → Dict ℤ → List LogReceipt → Exec (States F × HighProfitSates F) (Dict ℤ)
  updates eth users [] = Exec.pure users
  updates eth users (log ∷ logs) =
      Exec.◌>>=◌ (HighProfit.update eth log) (λ temp. updates eth (update_all users temp) logs)

  -- `execution_select` of calculate_health_factor: no pool of processes is used
  unfoldable pub health_of : (now : ℤ) → List String → World F → Result (List (HealthResult F))
  health_of now users w = do
    args ← gen_users_with_args w.states users
    signal_calculate_health_factor now args w.states.ctokens w.comet

  -- `users_trimming_wrap`
  unfoldable pub users_trimming_wrap :
      List String → (current_time : ℤ) → (is_signal : Bool) → World F → Result (List String)
  users_trimming_wrap users current_time is_signal w =
      users_trimming users w.states current_time is_signal

  -- `complete_states_info`
  unfoldable pub complete_states_info : (now : ℤ) → Exec (World F) (List (HealthResult F))
  unfolding health_of
  complete_states_info now =
      Exec.◌>>=◌ (reads (λ w. health_of now (keys w.states.users_states) w))
        (λ results. Exec.◌>>◌ (on_states (write_health_factor results)) (Exec.pure results))
