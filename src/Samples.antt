-- ===== src/Samples.antt =====
-- Concrete parameters for the tests: floats with three decimals, a decoder, markets and users.
use compound_liquidation.Prelude.{
  ap, zero, suc, ◌*◌, ◌/◌, ◌<◌, ℕ, ◌^◌, ◌≡◌, true, false, String, some, none, List, [], ◌∷◌, Dict,
  arith, if◌then◌else◌,
}
use compound_liquidation.Prelude.Int.{
  ℤ, pos, negsuc, ◌+ℤ◌, ◌-ℤ◌, ◌*ℤ◌, ◌≤ℤ◌, neg, ltb_ℤ, leb_ℤ, eqb_ℤ, fdiv, *ℤ-pos,
}
use compound_liquidation.Prelude.Float.{Floats, IsFloats}
use compound_liquidation.Chain.{Eth, LogReceipt, AbiValue}
use compound_liquidation.Tokens.{CompReserve, CtokenInfos, new_ctoken_balances}
use compound_liquidation.Comet.{CometConfigs}
use compound_liquidation.Users.{UserStates, States, new_health_factor}
use compound_liquidation.Router.{Pool}

abbrev pub Milli : Type 0
Milli = ℤ

abbrev quotient : ℤ → ℤ → ℤ
quotient a (pos zero) = pos 0
quotient a (pos (suc n)) = fdiv a (suc n)
quotient a (negsuc n) = fdiv (neg a) (suc n)

instance unfoldable pub milli_floats : Floats Milli
milli_floats = record {
  of_int = λ a. a *ℤ pos 1000;
  decimal = λ m k. fdiv (m *ℤ pos 1000) (10 ^ k);
  div_int = λ a b. quotient (a *ℤ pos 1000) b;
  add = λ a b. a +ℤ b;
  sub = λ a b. a -ℤ b;
  mul = λ a b. fdiv (a *ℤ b) 1000;
  div = λ a b. quotient (a *ℤ pos 1000) b;
  floor_quot = λ a b. quotient a b *ℤ pos 1000;
  fabs = λ a. if ltb_ℤ a (pos 0) then neg a else a;
  trunc = λ a. fdiv a 1000;
  lt = ltb_ℤ;
  le = leb_ℤ;
  eq = eqb_ℤ;
  int_lt = λ a b. ltb_ℤ (a *ℤ pos 1000) b;
}

div_lt : (a n : ℕ) → a * 1000 / suc n < 1000 → a < suc n
div_lt a n h = grind arith

div_int-lt_one :
    (a b : ℤ)
    → pos 1 ≤ℤ b
    → ltb_ℤ (quotient (a *ℤ pos 1000) b) (pos 1 *ℤ pos 1000) ≡ true
    → a +ℤ pos 1 ≤ℤ b
unfolding fdiv ◌+ℤ◌
div_int-lt_one (pos a) (pos zero) h k = absurd (omega arith)
div_int-lt_one (pos a) (pos (suc n)) h k =
    let low = rw (*ℤ-pos a 1000, *ℤ-pos 1 1000) at k in
    let less : a < suc n = div_lt a n (ground arith) in ground arith
div_int-lt_one (negsuc a) (pos b) h k = ground arith
div_int-lt_one a (negsuc b) h k = absurd (omega arith)

div-one : (a : ℤ) → quotient (a *ℤ pos 1000) (pos 1 *ℤ pos 1000) ≡ a
unfolding ◌*ℤ◌ fdiv
div-one (pos a) = rw *ℤ-pos (ap pos (grind arith))
div-one (negsuc a) = ground arith

instance pub milli_laws : IsFloats Milli
unfolding milli_floats
milli_laws = record {
  lt_asym = λ a b h. ground arith;
  lt_trans = λ a b c h k. ground arith;
  div_int-lt_one = div_int-lt_one;
  div-one = div-one;
}

abbrev pub market : String
market = "0xmarket"

-- bytes are a user's name by their length
abbrev hex_sample : List ℕ → String
hex_sample [] = "0xalice"
hex_sample (b ∷ bs) = "0xbob"

abbrev pub eth_sample : Eth
eth_sample = record {
  hex = hex_sample;
  decode = λ types bs.
      some (AbiValue.address market ∷ AbiValue.uint (pos 5) ∷ AbiValue.uint (pos 7) ∷ []);
  to_checksum_address = λ a. a;
}

abbrev pub thirteen : List ℕ
thirteen = 0 ∷ 0 ∷ 0 ∷ 0 ∷ 0 ∷ 0 ∷ 0 ∷ 0 ∷ 0 ∷ 0 ∷ 0 ∷ 0 ∷ 1 ∷ []

abbrev pub log_sample : LogReceipt
log_sample = record {
  removed = false;
  address = market;
  data_hex = "0x";
  topics = [] ∷ [] ∷ thirteen ∷ [];
  block_number = pos 9;
  block_hash = [];
  transaction_index = pos 0;
  transaction_hash = [];
}

abbrev pub one : ℤ
one = pos (10 ^ 18)

abbrev pub infos_sample : CtokenInfos
infos_sample = record {
  configs = none;
  risks = record {
    borrow_index = one;
    reserve_factor = pos 0;
    exchange_rate = one;
    protocol_seized = pos 0;
  };
  balances = new_ctoken_balances;
  price = some (record {
    price_current = one;
    price_cache = pos 0;
    last_update = pos 0;
    is_comfired = true;
  });
}

abbrev pub ctk_sample : Dict CtokenInfos
ctk_sample = (market, infos_sample) ∷ []

abbrev pub comet_sample : CometConfigs
comet_sample = record {
  liq_incentive = pos (11 * 10 ^ 17);
  closs_factor = pos (5 * 10 ^ 17);
  ctokens_collateral_factor = (market, pos (5 * 10 ^ 17)) ∷ [];
  last_update = pos 0;
}

-- 100 tokens of collateral, and a debt of 80
abbrev pub reserve_sample : CompReserve
reserve_sample = record {
  col_amount = pos (100 * 10 ^ 18);
  is_col_liq = pos 1;
  debt_amount = pos (80 * 10 ^ 18);
  debt_interest = one;
}

abbrev pub alice : UserStates Milli
alice = record {
  reserves = (market, reserve_sample) ∷ [];
  health_factor = new_health_factor;
  vai_repay = pos 0;
}

abbrev pub states_sample : States Milli
states_sample = record {
  users_states = ("0xalice", alice) ∷ [];
  ctokens = ctk_sample;
  last_update = pos 0;
  block_hash = "";
  plug_in = none;
}

abbrev pub pool_sample : Pool
pool_sample = record {
  pair = ("0xa", "0xb");
  pool_addr = "0xpool";
  liquidity = (pos 1000, pos 2000);
  fee = 25;
}
