-- ===== src/Tokens.antt =====
-- The markets (cTokens) and the positions in them: configs/tokens.py.
-- A cache file is a record of what `json_file_load` returns for it.
pub mod Reload
use compound_liquidation.Prelude.{
  ℕ, ◌-◌, String, Bool, true, false, Option, none, some, List, [], ◌∷◌, Dict, lookup, insert,
  Result, ok, err, ◌>>=◌, at_index, Error, raised, ◌==◌, if◌then◌else◌, get_or,
}
use Prim.Native.String.{count}
use compound_liquidation.Prelude.Int.{ℤ, pos, ◌+ℤ◌, ◌-ℤ◌, ◌*ℤ◌, ltb_ℤ, floor_div, eqb_ℤ}
use compound_liquidation.Prelude.Text.{str}
use compound_liquidation.Config.{exp_scale, exchange_rate_init}
use compound_liquidation.Price.{CtokenPrice}

pub record CompReserve : Type 0 where
  pub col_amount : ℤ
  pub is_col_liq : ℤ
  pub debt_amount : ℤ
  pub debt_interest : ℤ

-- `new_reserve()`
abbrev pub new_reserve : CompReserve
new_reserve = record {
  col_amount = pos 0;
  is_col_liq = pos 0;
  debt_amount = pos 0;
  debt_interest = pos 0;
}

unfoldable pub to_list : CompReserve → List ℤ
to_list r = r.col_amount ∷ r.is_col_liq ∷ r.debt_amount ∷ r.debt_interest ∷ []

unfoldable pub reserve_of_list : List ℤ → Result CompReserve
reserve_of_list l = do
  col ← at_index l 0
  liq ← at_index l 1
  debt ← at_index l 2
  interest ← at_index l 3
  ok (record { col_amount = col; is_col_liq = liq; debt_amount = debt; debt_interest = interest })

unfoldable pub reserves_load_from : Dict CompReserve → Dict (List ℤ) → Result (Dict CompReserve)
unfolding reserve_of_list
reserves_load_from results [] = ok results
reserves_load_from results ((reserve, l) ∷ rest) = do
  r ← reserve_of_list l
  reserves_load_from (insert reserve r results) rest

unfoldable pub reserves_load : Dict (List ℤ) → Result (Dict CompReserve)
unfolding reserves_load_from
reserves_load = reserves_load_from []

pub record CtokenRiskParams : Type 0 where
  pub borrow_index : ℤ
  pub reserve_factor : ℤ
  pub exchange_rate : ℤ
  pub protocol_seized : ℤ

abbrev pub new_ctoken_risks : CtokenRiskParams
new_ctoken_risks = record {
  borrow_index = pos 0;
  reserve_factor = pos 0;
  exchange_rate = pos 0;
  protocol_seized = pos 0;
}

-- `CtokenRiskParams.to_dict`
unfoldable pub risks_to_dict : CtokenRiskParams → Dict ℤ
risks_to_dict r = ("borrowIndex", r.borrow_index) ∷ []

pub record CtokenBalances : Type 0 where
  pub total_reserve : ℤ
  pub total_borrow : ℤ
  pub total_supply : ℤ

abbrev pub new_ctoken_balances : CtokenBalances
new_ctoken_balances = record { total_reserve = pos 0; total_borrow = pos 0; total_supply = pos 0 }

-- `CtokenBalances.to_dict`
unfoldable pub balances_to_dict : CtokenBalances → Dict ℤ
balances_to_dict b =
    ("totalReserve", b.total_reserve)
    ∷ ("totalBorrow", b.total_borrow)
    ∷ ("totalSupply", b.total_supply)
    ∷ []

-- The local names are the method's: it reads the field of the reserves as the supply.
pub cal_exchange_rate : CtokenBalances → Result ℤ
cal_exchange_rate b =
    let total_supply = b.total_reserve in
    let total_borrow = b.total_borrow in
    let total_reserve = b.total_supply in
    let total_cash : ℤ = pos 0 in
    if eqb_ℤ total_supply (pos 0)
    then ok (pos exchange_rate_init)
    else floor_div ((total_cash +ℤ total_borrow -ℤ total_reserve) *ℤ pos exp_scale) total_supply

-- `d.get(k, 0)`
abbrev pub get_or_zero : String → Dict ℤ → ℤ
get_or_zero k d = get_or (lookup k d) (pos 0)

unfoldable pub balances_of_dict : Dict ℤ → CtokenBalances
balances_of_dict d = record {
  total_reserve = get_or_zero "totalReserves" d;
  total_borrow = get_or_zero "totalBorrows" d;
  total_supply = get_or_zero "totalSupply" d;
}

unfoldable pub risks_of_dict : Dict ℤ → CtokenRiskParams
risks_of_dict d = record {
  borrow_index = get_or_zero "borrowIndex" d;
  reserve_factor = get_or_zero "reserveFactor" d;
  exchange_rate = get_or_zero "exchangeRate" d;
  protocol_seized = get_or_zero "protocolSeize" d;
}

-- what a cache file holds under "reserves" and "lastUpdate"
pub record CtokensFile : Type 0 where
  pub reserves : Dict (Dict ℤ)
  pub last_update : ℤ

unfoldable pub load_values : {V : Type 0} → (Dict ℤ → V) → Dict V → Dict (Dict ℤ) → Dict V
load_values f dict [] = dict
load_values f dict ((ctoken, values) ∷ rest) = load_values f (insert ctoken (f values) dict) rest

unfoldable pub reload_ctokens_balances : CtokensFile → Dict CtokenBalances × ℤ
unfolding load_values balances_of_dict
reload_ctokens_balances file = (load_values balances_of_dict [] file.reserves, file.last_update)

unfoldable pub reload_ctokens_risks : CtokensFile → Dict CtokenRiskParams × ℤ
unfolding load_values risks_of_dict
reload_ctokens_risks file = (load_values risks_of_dict [] file.reserves, file.last_update)

pub record CtokenConfigs : Type 0 where
  pub ctoken : String
  pub underlying : String
  pub symbol : String
  pub decimals : ℤ
  pub base_units : ℕ
  pub price_source : ℤ
  pub price_fixed : ℤ
  pub swap_router : String
  pub reporter : String
  pub reporter_multiplier : ℕ
  pub is_uniswap_reversed : Bool
  pub underlying_decimals : ℕ

-- `new_ctoken_configs`, at the arguments that the program's own call leaves at their defaults;
-- `base_units` and `reporter_multiplier` are stored as their numbers of decimal zeros
unfoldable pub new_ctoken_configs :
    (ctoken reporter underlying : String) (underlying_decimals : ℕ) (symbol : String) (decimals : ℤ)
    (base_units reporter_multiplier : ℕ)
    → CtokenConfigs
new_ctoken_configs ctoken reporter underlying underlying_decimals symbol decimals base_units
      reporter_multiplier =
    record {
      ctoken = ctoken;
      underlying = underlying;
      symbol = symbol;
      decimals = decimals;
      base_units = count (str base_units) - 1;
      price_source = pos 0;
      price_fixed = pos 0;
      swap_router = "0x";
      reporter = reporter;
      reporter_multiplier = count (str reporter_multiplier) - 1;
      is_uniswap_reversed = false;
      underlying_decimals = underlying_decimals;
    }

-- `configs` and `price` are `None` until the start-up fills them in
pub record CtokenInfos : Type 0 where
  pub risks : CtokenRiskParams
  pub balances : CtokenBalances
  pub configs : Option CtokenConfigs
  pub price : Option CtokenPrice

unfoldable pub ctoken_infos : CtokenRiskParams → CtokenBalances → CtokenInfos
ctoken_infos risks balances = record {
  risks = risks;
  balances = balances;
  configs = none;
  price = none;
}

unfoldable pub infos_from :
    Dict CtokenRiskParams → Dict CtokenBalances → Dict CtokenInfos → List String → Dict CtokenInfos
unfolding ctoken_infos
infos_from risks balances infos [] = infos
infos_from risks balances infos (reserve ∷ rest) =
    let r = get_or (lookup reserve risks) new_ctoken_risks in
    let b = get_or (lookup reserve balances) new_ctoken_balances in
    infos_from risks balances (insert reserve (ctoken_infos r b) infos) rest

-- `tokens_load`: the two files must be of one block. `status` is `users_file_status` of the
-- configuration, `init` its `init_block_number`.
unfoldable pub tokens_load :
    (status : ℕ) (init : ℤ)
    → List String
    → (balances risks : CtokensFile) → Result (Dict CtokenInfos × ℤ)
unfolding infos_from reload_ctokens_balances reload_ctokens_risks
tokens_load status init reserves balances_file risks_file =
    if status == 0
    then ok (infos_from [] [] [] reserves, init)
    else let (balances, last_update_b) = reload_ctokens_balances balances_file in
      let (risks, last_update_r) = reload_ctokens_risks risks_file in
      if eqb_ℤ last_update_b last_update_r
      then ok (infos_from risks balances [] reserves, last_update_b)
      else err raised
