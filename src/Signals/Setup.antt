-- ===== src/Signals/Setup.antt =====
-- The signals at the start: query_reserves_aggregator, aggregator_description_parse and init_signals of
-- configs/signals.py, with the price sources' contracts as a parameter.
use Prim.Native.Char.{Char, code}
use Prim.Native.String as Text
use compound_liquidation.Prelude.{
  ℕ, String, none, some, List, [], ◌∷◌, ◌++◌, Dict, lookup, insert, update_all, Result, ok, err,
  attribute_error, ◌==◌, if◌then◌else◌, at_key, get_or, str_eq, ◌>>=◌, ◌≡◌, refl,
}
use compound_liquidation.Prelude.Text.{lower}
use compound_liquidation.Config.{address_zero}
use compound_liquidation.Tokens.{CtokenInfos, CtokenConfigs}
use compound_liquidation.Signals.{AggregatorInfos, Signals, signals}

-- the calls of a price source and of its aggregator
pub record Sources : Type 0 where
  pub query_aggregator : (source : String) → Result String
  pub description : (aggregator : String) → Result String
  pub decimals : (aggregator : String) → Result ℕ

-- `s.replace(" ", "")`
unfoldable pub without_blanks : String → String
without_blanks Text.[] = Text.[]
without_blanks (Text.◌∷◌ c s) =
    let rest = without_blanks s in if code c == 32 then rest else Text.◌∷◌ c rest

-- `s.split("/")`, which gives one text at least
unfoldable pub split_slash : String → List String
split_slash Text.[] = Text.[] ∷ []
split_slash (Text.◌∷◌ c s) =
    let rest = split_slash s in if code c == 47 then Text.[] ∷ rest else onto c rest
  where
    onto : Char → List String → List String
    onto c [] = Text.◌∷◌ c Text.[] ∷ []
    onto c (first ∷ rest) = Text.◌∷◌ c first ∷ rest

unfoldable pub aggregator_description_parse : String → List String
unfolding without_blanks split_slash
aggregator_description_parse descr = split_slash (without_blanks descr)

descriptions : aggregator_description_parse "BTC / USD" ≡ "BTC" ∷ "USD" ∷ []
unfolding aggregator_description_parse
descriptions = refl

-- `ctokens[reserve].configs.reporter`
unfoldable pub reporter_of : Dict CtokenInfos → String → Result String
reporter_of ctokens reserve = do
  c ← at_key reserve ctokens
  elim (CtokenInfos.configs c) [
    | none ↦ err attribute_error
    | some cfg ↦ ok (CtokenConfigs.reporter cfg)
  ]

-- `dic[k].append(info)`, of a list that is made where it is missing
unfoldable pub append_info :
    String → AggregatorInfos → Dict (List AggregatorInfos) → Dict (List AggregatorInfos)
append_info k info dic = insert k (get_or (lookup k dic) [] ++ (info ∷ [])) dic

abbrev pub Found : Type 0
Found = Dict (List AggregatorInfos) × List (Dict String)

module _ (sources : Sources) (ctokens : Dict CtokenInfos) where
  -- a market with a source
  unfoldable pub add_source : (reserve source : String) → Found → Result Found
  unfolding append_info aggregator_description_parse
  add_source reserve source (dic, aggregator_filter) = do
    aggregator ← Sources.query_aggregator sources source
    descr ← Sources.description sources aggregator
    price_decimals ← Sources.decimals sources aggregator
    let info : AggregatorInfos = record {
      token = reserve;
      pair_symbols = aggregator_description_parse descr;
      price_decimals = price_decimals;
    }
    ok (
      append_info (lower aggregator) info dic,
      aggregator_filter ++ ((("to", aggregator) ∷ []) ∷ []),
    )

  -- one round of the loop: a market without a source is passed over
  unfoldable pub add_reserve : (reserve : String) → Found → Result Found
  unfolding reporter_of add_source
  add_reserve reserve found = do
    source ← reporter_of ctokens reserve
    if str_eq source address_zero then ok found else add_source reserve source found

  unfoldable pub reserves_from : List String → Found → Result Found
  unfolding add_reserve
  reserves_from [] found = ok found
  reserves_from (reserve ∷ rest) found = do
    next ← add_reserve reserve found
    reserves_from rest next

  unfoldable pub query_reserves_aggregator : List String → Result Found
  unfolding reserves_from
  query_reserves_aggregator reserves = reserves_from reserves ([], [])

-- `ST_ALIAS` and `S_ALIAS`
abbrev pub st_alias : Dict (List AggregatorInfos)
st_alias = []

abbrev pub s_alias : List (Dict String)
s_alias = []

-- `init_signals`, on BSC
unfoldable pub init_signals : Sources → List String → Dict CtokenInfos → Result Signals
unfolding query_reserves_aggregator
init_signals sources reserves ctokens = do
  found ← query_reserves_aggregator sources ctokens reserves
  let source_token_dic = update_all found.0 st_alias
  let aggregator_source_filter = found.1 ++ s_alias
  ok (signals source_token_dic aggregator_source_filter)
