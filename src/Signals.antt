-- ===== src/Signals.antt =====
-- Oracle signals: classes Signals, SignalsCompV2 and SignalsCompVenues of configs/signals.py. A pending
-- `transmit` transaction is parsed into the aggregator and the median of its observations.
pub mod CompV2
pub mod Venues
pub mod Epochs
pub mod Setup
pub mod Sources
pub mod Inverse
use compound_liquidation.Prelude.{
  ℕ, zero, suc, ◌+◌, ◌-◌, ◌*◌, ◌/◌, ◌%◌, ◌^◌, String, Bool, true, Option, none, some, List, [], ◌∷◌,
  ◌++◌, map, Dict, lookup, insert, keys, Result, ok, err, at_key, at_index, raised, value_error,
  zero_division, index_error, ltb, leb, ◌==◌, length, take, drop, str_eq, get_or, if◌then◌else◌,
}
use Prim.Native.String.{◌++◌ as append_text}
use compound_liquidation.Prelude.Int.{ℤ, pos, negsuc, ltb_ℤ}
use compound_liquidation.Prelude.Text.{slice_from, from_hex, zfill, str, int_hex, int_dec}
use compound_liquidation.Prelude.Float.{Floats}
use compound_liquidation.Prelude.Exec.{Exec, pure, raise, lift, modify, continue, ◌>>=◌, ◌>>◌}
use compound_liquidation.Config.{base_currency}
use compound_liquidation.Tokens.{CtokenConfigs}

pub record AggregatorInfos : Type 0 where
  pub token : String
  pub pair_symbols : List String
  pub price_decimals : ℕ

pub record Signals : Type 0 where
  pub signal_token_map : Dict (List AggregatorInfos)
  pub token_signal_map : Dict String
  pub signals_event_filter_light : List (Dict String)
  pub signals_epoch : Dict ℕ

-- the body of `signal_token_inverse`, from the entries so far
unfoldable pub inverse_of : String → List AggregatorInfos → Dict String → Dict String
inverse_of k [] m = m
inverse_of k (d ∷ datas) m = inverse_of k datas (insert d.token k m)

unfoldable pub inverse_from : Dict (List AggregatorInfos) → Dict String → Dict String
unfolding inverse_of
inverse_from [] m = m
inverse_from ((k, datas) ∷ rest) m = inverse_from rest (inverse_of k datas m)

unfoldable pub signal_token_inverse : Dict (List AggregatorInfos) → Dict String
unfolding inverse_from
signal_token_inverse source = inverse_from source []

-- `Signals.__init__`
unfoldable pub signals : Dict (List AggregatorInfos) → List (Dict String) → Signals
unfolding signal_token_inverse
signals source_token_map aggregator_source_filter = record {
  signal_token_map = source_token_map;
  token_signal_map = signal_token_inverse source_token_map;
  signals_event_filter_light = aggregator_source_filter;
  signals_epoch = [];
}

unfoldable pub get_tokens_from_aggr : Signals → String → Result (List String × String)
get_tokens_from_aggr s signal = tokens (at_key signal s.signal_token_map)
  where
    tokens : Result (List AggregatorInfos) → Result (List String × String)
    tokens (ok infos) = ok (map (λ i. AggregatorInfos.token i) infos, signal)
    tokens (err e) = err e

-- the index is taken modulo the number of aggregators
pub get_tokens_from_aggr_index : Signals → ℕ → Result (List String × String)
unfolding get_tokens_from_aggr
get_tokens_from_aggr_index s index =
    let aggr_lst = keys s.signal_token_map in
    if length aggr_lst == 0
    then err zero_division
    else with_aggr (at_index aggr_lst (index % length aggr_lst))
  where
    with_aggr : Result String → Result (List String × String)
    with_aggr (ok aggr) = get_tokens_from_aggr s aggr
    with_aggr (err e) = err e

values : Dict String → List String
values [] = []
values ((k, v) ∷ d) = v ∷ values d

filter_from : List (Dict String) → List String
unfolding values
filter_from [] = []
filter_from (d ∷ rest) = values d ++ filter_from rest

pub event_filter_convert : Signals → List String
unfolding filter_from
event_filter_convert s = filter_from s.signals_event_filter_light

-- `int.from_bytes(bs, byteorder='big')`
unfoldable pub from_bytes : ℕ → List ℕ → ℕ
from_bytes acc [] = acc
from_bytes acc (b ∷ bs) = from_bytes (acc * 256 + b) bs

-- `data[a:a+n]`
abbrev pub bytes_at : List ℕ → ℕ → ℕ → List ℕ
bytes_at bs a n = take n (drop a bs)

-- `bs[-5:]`
abbrev pub last_five : List ℕ → List ℕ
last_five bs = drop (length bs - 5) bs

-- `int(bs.hex(), 16)`, which raises on no digits at all
unfoldable pub int_of_bytes : List ℕ → Result ℕ
unfolding from_bytes
int_of_bytes [] = err value_error
int_of_bytes (b ∷ bs) = ok (from_bytes 0 (b ∷ bs))

-- the loop that reads the observations
unfoldable pub observations : ℕ → List ℕ → ℕ → List ℕ
unfolding from_bytes
observations zero bs offset_next = []
observations (suc n) bs offset_next =
    from_bytes 0 (bytes_at bs offset_next 32) ∷ observations n bs (offset_next + 32)

pub record TxAttributes : Type 0 where
  pub to : String
  pub input : String
  pub gas_price : Option String
  pub max_fee_per_gas : String

abbrev pub transmit_func_sig : List ℕ
transmit_func_sig = 201 ∷ 128 ∷ 117 ∷ 57 ∷ []

unfoldable pub same_bytes : List ℕ → List ℕ → Bool
same_bytes [] [] = Bool.true
same_bytes [] (b ∷ bs) = Bool.false
same_bytes (a ∷ xs) [] = Bool.false
same_bytes (a ∷ xs) (b ∷ bs) = if a == b then same_bytes xs bs else Bool.false

-- `bytes.fromhex(input_str[2:])`
unfoldable pub call_data : String → Result (List ℕ)
call_data input = or_value_error (from_hex (slice_from 2 input))
  where
    or_value_error : Option (List ℕ) → Result (List ℕ)
    or_value_error none = err value_error
    or_value_error (some bs) = ok bs

-- the test of the report's epoch, which moves it forward
unfoldable pub update_epoch : String → ℕ → Exec Signals (Unit {0})
update_epoch contract_addr signal_epoch s =
    let local_epoch = get_or (lookup contract_addr s.signals_epoch) 0 in
    if ltb signal_epoch local_epoch
    then (err raised, s)
    else (ok tt, record s { signals_epoch = insert contract_addr signal_epoch s.signals_epoch })

-- the report behind the function's signature: its epoch and the median of its observations
unfoldable pub report : String → List ℕ → Exec Signals (String × ℕ)
unfolding update_epoch int_of_bytes observations from_bytes
report contract_addr bs = do
  let offset = from_bytes 0 (take 32 bs) + 32
  signal_epoch ← lift (int_of_bytes (last_five (bytes_at bs offset 32)))
  update_epoch contract_addr signal_epoch
  let array_length = from_bytes 0 (bytes_at bs (offset + 32 * 3) 32)
  let array_args = observations array_length bs (offset + 32 * 4)
  price ← lift (at_index array_args (length array_args / 2))
  pure (contract_addr, price)

module _ {F : Type 0} ⦃fl : Floats F⦄ where
  -- the tests before the report is read
  unfoldable pub accepted : TxAttributes → F → List ℕ → Result (Unit {0})
  unfolding same_bytes
  accepted tx local_gasprice bs =
      if leb (length bs) 4
      then err raised
      else if same_bytes (take 4 bs) transmit_func_sig
      then priced (int_hex (get_or tx.gas_price tx.max_fee_per_gas))
      else err raised
    where
      priced : Result ℕ → Result (Unit {0})
      priced (err e) = err e
      priced (ok signal_gasprice) =
          if Floats.int_lt fl (pos signal_gasprice)
            (Floats.mul fl (Floats.decimal fl (pos 9) 1) local_gasprice)
          then err raised
          else ok tt

  -- `Signals.tx_filter_and_parsing`, where the local gas price is one as a float
  unfoldable pub tx_filter_and_parsing : TxAttributes → F → Exec Signals (String × ℕ)
  unfolding call_data accepted report
  tx_filter_and_parsing tx gas_price = do
    bs ← lift (call_data tx.input)
    lift (accepted tx gas_price bs)
    report tx.to (drop 4 bs)

-- `Signals.no_name`: the tokens that an aggregator prices, all in the base currency
unfoldable pub priced_tokens : ℕ → List AggregatorInfos → Result (List (String × ℕ × ℕ))
priced_tokens price [] = ok []
priced_tokens price (i ∷ infos) = step (at_index i.pair_symbols 1) (priced_tokens price infos)
  where
    step : Result String → Result (List (String × ℕ × ℕ)) → Result (List (String × ℕ × ℕ))
    step (err e) rest = err e
    step (ok symbol) (ok l) =
        if str_eq symbol base_currency
        then ok ((i.token, price, i.price_decimals) ∷ l)
        else err raised
    step (ok symbol) (err e) = if str_eq symbol base_currency then err e else err raised

pub no_name : Signals → String → ℕ → Result (List (String × ℕ × ℕ) × String)
unfolding priced_tokens
no_name s aggregator price = found (at_key aggregator s.signal_token_map)
  where
    named : Result (List (String × ℕ × ℕ)) → Result (List (String × ℕ × ℕ) × String)
    named (ok r) = ok (r, aggregator)
    named (err e) = err e

    found : Result (List AggregatorInfos) → Result (List (String × ℕ × ℕ) × String)
    found (ok infos) = named (priced_tokens price infos)
    found (err e) = err e
