-- ===== src/Users.antt =====
-- The positions of all users: the classes HealthFactor, UserStates and States of configs/users.py.
-- `F` is the type of Python's floats. A `States` object owns its users and their reserves, so they
-- stand in it by value.
pub mod Queries
pub mod Access
pub mod Handlers
pub mod Sums
pub mod Holds
pub mod Checked
pub mod Conservation
pub mod Sampling
pub mod Block
pub mod Stable
pub mod Once
pub mod HighProfit
pub mod Cache
use compound_liquidation.Prelude.{
  String, Option, none, some, List, [], ◌∷◌, ◌++◌, Dict, lookup, insert, Result, ok, err, at_key,
  attribute_error, key_error, ◌>>=◌, at_index, adjust, if◌then◌else◌,
}
use compound_liquidation.Prelude.Int.{ℤ, pos, ◌+ℤ◌, ◌*ℤ◌, ltb_ℤ, floor_div, fdiv}
use compound_liquidation.Prelude.Float.{Floats}
use compound_liquidation.Prelude.Exec.{Exec}
use compound_liquidation.Config.{exp_scale}
use compound_liquidation.Chain.{Eth, LogReceipt}
use compound_liquidation.Price.{CtokenPrice}
use compound_liquidation.Tokens.{CompReserve, CtokenInfos, reserves_load}
use compound_liquidation.Events.{State}

pub record HealthFactor (F : Type 0) : Type 0 where
  pub value : F
  pub debt_volume : ℤ
  pub last_update : ℤ

-- `new_health_factor()`
abbrev pub new_health_factor : {F : Type 0} ⦃f : Floats F⦄ → HealthFactor F
new_health_factor ⦃f⦄ = record {
  value = f.of_int (pos 0);
  debt_volume = pos 0;
  last_update = pos 0;
}

-- `HealthFactor.get_col_volume`: it reads a field that the constructor never sets.
pub get_col_volume : {F : Type 0} → HealthFactor F → Result ℤ
get_col_volume hf = err attribute_error

pub record UserStates (F : Type 0) : Type 0 where
  pub reserves : Dict CompReserve
  pub health_factor : HealthFactor F
  pub vai_repay : ℤ

-- `UserStates(reserves, health_factor, vai_repay)`
unfoldable pub user_states :
    {F : Type 0} → Dict (List ℤ) → HealthFactor F → ℤ → Result (UserStates F)
user_states reserves hf vai_repay = do
  r ← reserves_load reserves
  ok (record { reserves = r; health_factor = hf; vai_repay = vai_repay })

pub record States (F : Type 0) : Type 0 where
  pub users_states : Dict (UserStates F)
  pub ctokens : Dict CtokenInfos
  pub last_update : ℤ
  pub block_hash : String
  pub plug_in : Option (State ℤ)

-- `ctk[token].price.price_current`, where the price may still be `None`
unfoldable pub current_price : Dict CtokenInfos → String → Result ℤ
current_price ctk token = do
  infos ← at_key token ctk
  elim infos.price [ none ↦ err attribute_error | some p ↦ ok (CtokenPrice.price_current p) ]

-- the loop of `update_debt`, over the reserves of a user
unfoldable pub debt_volume_from : Dict CtokenInfos → ℤ → Dict CompReserve → Result ℤ
unfolding current_price
debt_volume_from ctk sum [] = ok sum
debt_volume_from ctk sum ((token, reserve) ∷ rest) = do
  price ← current_price ctk token
  sum' ←
      (if ltb_ℤ (pos 0) reserve.debt_amount
        then (do
          infos ← at_key token ctk
          balance ←
              floor_div (reserve.debt_amount *ℤ infos.risks.borrow_index) reserve.debt_interest
          ok (sum +ℤ fdiv (balance *ℤ price) exp_scale))
        else ok sum)
  debt_volume_from ctk sum' rest
