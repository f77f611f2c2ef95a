-- ===== src/Protocol.antt =====
-- What configs/protocol.py, configs/signals.py and configs/comet.py ask the contracts at the start, and
-- write into the markets: the configuration, the risks and the price of each. A call is a parameter that
-- may raise.
pub mod Completed
use compound_liquidation.Prelude.{
  ℕ, zero, suc, String, Bool, true, false, List, [], ◌∷◌, Dict, lookup, insert, adjust, Result, ok,
  err, Error, key_error, name_error, at_index, str_eq, if◌then◌else◌, Option, none, some, map_ok,
}
use compound_liquidation.Prelude.{◌>>=◌ as and_then}
use compound_liquidation.Prelude.Int.{ℤ, pos}
use compound_liquidation.Prelude.Exec.{Exec, pure, lift, modify, each, ◌>>=◌, ◌>>◌}
use compound_liquidation.Price.{CtokenPrice, new_ctoken_price}
use compound_liquidation.Comet.{CometConfigs}
use compound_liquidation.Tokens.{CtokenInfos, CtokenConfigs, CtokenRiskParams, new_ctoken_configs}
use compound_liquidation.Users.Access.{set_risks}

-- the calls of `query_ctokens_configs`
pub record Contracts : Type 0 where
  pub underlying : (ctoken_addr : String) → Result String
  pub symbol : (token : String) → Result String
  pub decimals : (token : String) → Result ℕ
  -- the oracles of a market, and whether each is enabled
  pub token_config : (ctoken_addr : String) → Result (List String × List Bool)
  -- the price source of an asset at an oracle
  pub feed : (oracle_addr asset : String) → Result String

-- the local names that the `try` block binds: an unbound one raises where it is read
pub record Names : Type 0 where
  pub ctoken_underlying : Result String
  pub ctoken_underlying_ext : Result String
  pub symbol : Result String
  pub underlying_decimals : Result ℕ

abbrev pub coin_ctoken : String
coin_ctoken = "0xA07c5b74C9B40447a954e1466938b865b6BBea36"

abbrev pub coin_names : Names
coin_names = record {
  ctoken_underlying = ok "0xbb4CdB9CBd36B01bD1cBaEBF2De08d9173bc095c";
  ctoken_underlying_ext = ok "0xbBbBBBBbbBBBbbbBbbBbbbbBBbBbbbbBbBbbBBbB";
  symbol = ok "vBNB";
  underlying_decimals = ok 18;
}

-- the names that the calls before the one that raised have bound
unfoldable pub bound_names : (underlying symbol : Result String) → Result ℕ → Names
bound_names (err e) symbol decimals = record {
  ctoken_underlying = err name_error;
  ctoken_underlying_ext = err name_error;
  symbol = err name_error;
  underlying_decimals = err name_error;
}
bound_names (ok u) (err e) decimals = record {
  ctoken_underlying = ok u;
  ctoken_underlying_ext = ok u;
  symbol = err name_error;
  underlying_decimals = err name_error;
}
bound_names (ok u) (ok t) (err e) = record {
  ctoken_underlying = ok u;
  ctoken_underlying_ext = ok u;
  symbol = ok t;
  underlying_decimals = err name_error;
}
bound_names (ok u) (ok t) (ok d) = record {
  ctoken_underlying = ok u;
  ctoken_underlying_ext = ok u;
  symbol = ok t;
  underlying_decimals = ok d;
}

-- the `try` block, and its `except`, which binds the names of the coin's market alone
unfoldable pub names_of : Contracts → String → Names
unfolding bound_names
names_of c ctoken_addr =
    let underlying = Contracts.underlying c ctoken_addr in
    let symbol = and_then underlying (Contracts.symbol c) in
    let decimals = and_then symbol (λ _. and_then underlying (Contracts.decimals c)) in
    handled decimals (bound_names underlying symbol decimals)
  where
    handled : Result ℕ → Names → Names
    handled (ok d) names = names
    handled (err e) names = if str_eq ctoken_addr coin_ctoken then coin_names else names

-- `i` after the loop: the place of the first oracle that is enabled, and their number where none is
unfoldable pub first_enabled : List Bool → ℕ
first_enabled [] = 0
first_enabled (true ∷ flags) = 0
first_enabled (false ∷ flags) = suc (first_enabled flags)

-- `Web3CompoundVenues.query_ctokens_configs`
unfoldable pub query_ctokens_configs : Contracts → String → Result CtokenConfigs
unfolding names_of first_enabled
query_ctokens_configs c ctoken_addr =
    let names = names_of c ctoken_addr in
    and_then (Contracts.token_config c ctoken_addr) (λ tuples.
      and_then (at_index tuples.0 (first_enabled tuples.1)) (λ oracle_addr.
        and_then (Names.ctoken_underlying_ext names) (λ asset.
          and_then (Contracts.feed c oracle_addr asset) (λ reporter.
            and_then (Names.ctoken_underlying names) (λ underlying.
              and_then (Names.underlying_decimals names) (λ decimals.
                and_then (Names.symbol names) (λ symbol. ok (
                  new_ctoken_configs ctoken_addr reporter underlying decimals symbol (pos 8) 1
                    1))))))))

-- an assignment through `obj[ctoken_addr]`
unfoldable pub at_ctoken : String → (CtokenInfos → CtokenInfos) → Exec (Dict CtokenInfos) (Unit {0})
at_ctoken ctoken_addr f obj = elim (lookup ctoken_addr obj) [
  | none ↦ (err key_error, obj)
  | some c ↦ (ok tt, adjust ctoken_addr f obj)
]

abbrev pub Completion : Type 0
Completion = Exec (Dict CtokenInfos) (Unit {0})

unfoldable pub complete_configs : (String → Result CtokenConfigs) → String → Completion
unfolding at_ctoken
complete_configs query ctoken_addr =
    lift (query ctoken_addr)
    >>= (λ cfg. at_ctoken ctoken_addr (λ c. record c { configs = some cfg }))

unfoldable pub complete_ctokens_configs_info :
    (String → Result CtokenConfigs) → List String → Completion
unfolding complete_configs
complete_ctokens_configs_info query reserves = each (complete_configs query) reserves

-- the calls of `complete_ctokens_risks`
pub record RiskCalls : Type 0 where
  pub reserve_factor_mantissa : (ctoken_addr : String) → Result ℤ
  pub exchange_rate_stored : (ctoken_addr : String) → Result ℤ
  pub protocol_seize_share_mantissa : (ctoken_addr : String) → Result ℤ

-- What this raises, a missing market too, is passed over.
unfoldable pub complete_protocol_seized : RiskCalls → String → Completion
complete_protocol_seized calls ctoken_addr obj =
    elim (RiskCalls.protocol_seize_share_mantissa calls ctoken_addr) [
      | err e ↦ (ok tt, obj)
      | ok share ↦
          (ok tt, adjust ctoken_addr (set_risks λ r. record r { protocol_seized = share }) obj)
    ]

unfoldable pub complete_risks : RiskCalls → String → Completion
unfolding at_ctoken complete_protocol_seized
complete_risks calls ctoken_addr =
    lift (RiskCalls.reserve_factor_mantissa calls ctoken_addr) >>= (λ factor.
      at_ctoken ctoken_addr (set_risks λ r. record r { reserve_factor = factor })
      >> (lift (RiskCalls.exchange_rate_stored calls ctoken_addr) >>= (λ rate.
          at_ctoken ctoken_addr (set_risks λ r. record r { exchange_rate = rate })
          >> complete_protocol_seized calls ctoken_addr)))

unfoldable pub complete_ctokens_risks : RiskCalls → List String → Completion
unfolding complete_risks
complete_ctokens_risks calls reserves = each (complete_risks calls) reserves

-- the price of `init_ctoken_price`, at the time `now`
unfoldable pub complete_price : (String → Result ℤ) → (now : ℤ) → String → Completion
unfolding at_ctoken
complete_price get_underlying_price now ctoken_addr =
    lift (get_underlying_price ctoken_addr) >>= (λ price.
      at_ctoken ctoken_addr (λ c. record c { price = some (new_ctoken_price price now) }))

unfoldable pub complete_ctokens_price_info :
    (get_underlying_price : String → Result ℤ) → (now : ℤ) → List String → Completion
unfolding complete_price
complete_ctokens_price_info get_underlying_price now reserves =
    each (complete_price get_underlying_price now) reserves

-- the three completions, in the order of the start-up
unfoldable pub complete_ctokens :
    (query : String → Result CtokenConfigs)
    → RiskCalls
    → (get_underlying_price : String → Result ℤ) → (now : ℤ) → List String
    → Completion
unfolding complete_ctokens_configs_info complete_ctokens_risks complete_ctokens_price_info
complete_ctokens query calls get_underlying_price now reserves =
    complete_ctokens_configs_info query reserves
    >> (complete_ctokens_risks calls reserves
        >> complete_ctokens_price_info get_underlying_price now reserves)

-- the calls of the comptroller
pub record Comptroller : Type 0 where
  pub liquidation_incentive_mantissa : Result ℤ
  pub close_factor_mantissa : Result ℤ
  -- `markets(ctoken)[1]`
  pub collateral_factor : (ctoken_addr : String) → Result ℤ

unfoldable pub collateral_factors : Comptroller → List String → Dict ℤ → Result (Dict ℤ)
collateral_factors c [] ctokens_cf = ok ctokens_cf
collateral_factors c (ctoken_addr ∷ reserves) ctokens_cf =
    and_then (Comptroller.collateral_factor c ctoken_addr)
      (λ factor. collateral_factors c reserves (insert ctoken_addr factor ctokens_cf))

unfoldable pub init_comet_configs :
    Comptroller → List String → (block_num : ℤ) → Result CometConfigs
unfolding collateral_factors
init_comet_configs c reserves block_num =
    and_then (Comptroller.liquidation_incentive_mantissa c) (λ liquidation_incentive.
      and_then (Comptroller.close_factor_mantissa c) (λ close_factor.
        and_then (collateral_factors c reserves []) (λ ctokens_cf. ok (record {
          liq_incentive = liquidation_incentive;
          closs_factor = close_factor;
          ctokens_collateral_factor = ctokens_cf;
          last_update = block_num;
        }))))
