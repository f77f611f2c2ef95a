-- ===== src/Signals/Inverse.antt =====
-- About init_signals of configs/signals.py: the two maps between aggregators and tokens agree with what
-- the sources answer.
use mathlib.Core.Path.{subst}
use compound_liquidation.Prelude.{
  String, none, some, List, [], ◌∷◌, Dict, lookup, ok, str_eq, ◌≡◌, refl, sym, ap, ◌∙◌, ◌⊎◌, inl,
  inr, All, All-map, Bool-cases, Option-cases, >>=-eq-ok, ok_injective, false,
}
use compound_liquidation.Prelude.Text.{lower}
use compound_liquidation.Config.{address_zero}
use compound_liquidation.Tokens.{CtokenInfos}
use compound_liquidation.Signals.{
  AggregatorInfos, Signals, signals, inverse_from, signal_token_inverse,
}
use compound_liquidation.Signals.Setup.{
  Sources, Found, reporter_of, aggregator_description_parse, append_info, add_source, add_reserve,
  reserves_from, query_reserves_aggregator, init_signals,
}
use compound_liquidation.Signals.Sources.{
  aggregator_of, AllUnder, append_info-AllUnder, Occurs, append_info-Occurs, lookup-AllTrue,
  inverse_from-AllTrue, inverse_from-IsPresent,
}

module _ (sources : Sources) (ctokens : Dict CtokenInfos) where
  -- what one round of the loop does
  abbrev Round : (reserve : String) → (dic next : Dict (List AggregatorInfos)) → Type 0
  Round reserve dic next =
      (aggregator_of sources ctokens reserve ≡ ok none) × (next ≡ dic)
      ⊎ (k : String) × (info : AggregatorInfos) × (AggregatorInfos.token info ≡ reserve)
        × (aggregator_of sources ctokens reserve ≡ ok (some k))
        × (next ≡ append_info k info dic)

  add_source-Round :
      (reserve source : String) (found next : Found)
      → reporter_of ctokens reserve ≡ ok source
      → str_eq source address_zero ≡ false
      → add_source sources ctokens reserve source found ≡ ok next
      → Round reserve found.0 next.0
  unfolding add_source aggregator_of
  add_source-Round reserve source found next e other h =
      let (aggregator, ea, h1) = >>=-eq-ok (Sources.query_aggregator sources source) _ h in
      let (descr, ed, h2) = >>=-eq-ok (Sources.description sources aggregator) _ h1 in
      let (price_decimals, ep, h3) = >>=-eq-ok (Sources.decimals sources aggregator) _ h2 in
      inr (
        lower aggregator,
        record {
          token = reserve;
          pair_symbols = aggregator_description_parse descr;
          price_decimals = price_decimals;
        },
        refl,
        rw (e, other, ea) refl,
        sym (ap (λ f. f.0) (ok_injective _ next h3)),
      )

  add_reserve-Round :
      (reserve : String) (found next : Found)
      → add_reserve sources ctokens reserve found ≡ ok next
      → Round reserve found.0 next.0
  unfolding add_reserve aggregator_of
  add_reserve-Round reserve found next h =
      let (source, e, h') = >>=-eq-ok (reporter_of ctokens reserve) _ h in
      elim (Bool-cases (str_eq source address_zero)) [
        | inl zero_address ↦ inl (
          rw (e, zero_address) refl,
          sym (ap (λ f. f.0) (ok_injective found next (rw zero_address at h'))),
        )
        | inr other ↦ add_source-Round reserve source found next e other (rw other at h')
      ]

  -- The market has no source, or it stands in a list.
  abbrev IsDone : Dict (List AggregatorInfos) → String → Type 0
  IsDone dic reserve =
      (aggregator_of sources ctokens reserve ≡ ok none)
      ⊎ ((k : String) × (aggregator_of sources ctokens reserve ≡ ok (some k))) × Occurs reserve dic

  Round-AllUnder :
      (reserve : String) (dic next : Dict (List AggregatorInfos))
      → Round reserve dic next
      → AllUnder sources ctokens dic
      → AllUnder sources ctokens next
  Round-AllUnder reserve dic next (inl (_, e)) h = rw e h
  Round-AllUnder reserve dic next (inr (k, info, et, ea, e)) h =
      rw e (append_info-AllUnder sources ctokens k info dic (rw et ea) h)

  Round-Occurs :
      (reserve t : String) (dic next : Dict (List AggregatorInfos))
      → Round reserve dic next
      → Occurs t dic
      → Occurs t next
  Round-Occurs reserve t dic next (inl (_, e)) h = rw e h
  Round-Occurs reserve t dic next (inr (k, info, et, ea, e)) h =
      rw e ((append_info-Occurs t k info dic).0 h)

  Round-IsDone :
      (reserve : String) (dic next : Dict (List AggregatorInfos))
      → Round reserve dic next
      → IsDone next reserve
  Round-IsDone reserve dic next (inl (ea, _)) = inl ea
  Round-IsDone reserve dic next (inr (k, info, et, ea, e)) =
      inr ((k, ea), rw e ((append_info-Occurs reserve k info dic).1 et))

  reserves_from-Occurs :
      (t : String) (reserves : List String) (found last : Found)
      → reserves_from sources ctokens reserves found ≡ ok last
      → Occurs t found.0
      → Occurs t last.0
  unfolding reserves_from
  reserves_from-Occurs t [] found last h o = subst (λ f. Occurs t f.0) (ok_injective found last h) o
  reserves_from-Occurs t (reserve ∷ rest) found last h o =
      let (next, e, h') = >>=-eq-ok (add_reserve sources ctokens reserve found) _ h in
      let round = add_reserve-Round reserve found next e in
      reserves_from-Occurs t rest next last h' (Round-Occurs reserve t found.0 next.0 round o)

  reserves_from-AllUnder :
      (reserves : List String) (found last : Found)
      → reserves_from sources ctokens reserves found ≡ ok last
      → AllUnder sources ctokens found.0
      → AllUnder sources ctokens last.0 × All (IsDone last.0) reserves
  unfolding reserves_from
  reserves_from-AllUnder [] found last h under =
      (subst (λ f. AllUnder sources ctokens f.0) (ok_injective found last h) under, tt)
  reserves_from-AllUnder (reserve ∷ rest) found last h under =
      let (next, e, h') = >>=-eq-ok (add_reserve sources ctokens reserve found) _ h in
      let round = add_reserve-Round reserve found next e in
      let (all, done) =
        reserves_from-AllUnder rest next last h'
          (Round-AllUnder reserve found.0 next.0 round under) in
      (all, (later reserve rest next last h' (Round-IsDone reserve found.0 next.0 round), done))
    where
      later :
          (r : String) (rest : List String) (next last : Found)
          → reserves_from sources ctokens rest next ≡ ok last
          → IsDone next.0 r
          → IsDone last.0 r
      later r rest next last h (inl ea) = inl ea
      later r rest next last h (inr (ea, o)) = inr (ea, reserves_from-Occurs r rest next last h o)

  -- `token_signal_map` says of a market what its source answers
  done-lookup :
      (reserve : String) (dic : Dict (List AggregatorInfos))
      → AllUnder sources ctokens dic
      → IsDone dic reserve
      → aggregator_of sources ctokens reserve ≡ ok (lookup reserve (inverse_from dic []))
  done-lookup reserve dic under done = elim (Option-cases (lookup reserve (inverse_from dic []))) [
    | inr (k, e) ↦ rw e (true_of k e)
    | inl e ↦ rw e (elim done [
      | inl ea ↦ ea
      | inr (_, o) ↦
          let present = (inverse_from-IsPresent reserve dic []).1 o in
          let bad : none ≡ some present.0 = sym e ∙ present.1 in cc
    ])
  ]
    where
      IsTrue : String → String → Type 0
      IsTrue t k = aggregator_of sources ctokens t ≡ ok (some k)

      true_of : (k : String) → lookup reserve (inverse_from dic []) ≡ some k → IsTrue reserve k
      true_of k e =
          lookup-AllTrue IsTrue reserve k (inverse_from dic []) e
            (inverse_from-AllTrue IsTrue dic [] under tt)

-- Where init_signals returns: for each market, token_signal_map has the lower-case aggregator that
-- the market's source answers, and nothing where the source is the zero address, and each market
-- in a list of signal_token_map stands under the aggregator that its source answers.
pub init_signals-inverse :
    (sources : Sources) (reserves : List String) (ctokens : Dict CtokenInfos) (s : Signals)
    → init_signals sources reserves ctokens ≡ ok s
    → All
        (λ reserve. aggregator_of sources ctokens reserve ≡ ok (lookup reserve s.token_signal_map))
        reserves
      × AllUnder sources ctokens s.signal_token_map
unfolding init_signals query_reserves_aggregator signals signal_token_inverse
init_signals-inverse sources reserves ctokens s h =
    let (found, e, h') = >>=-eq-ok (query_reserves_aggregator sources ctokens reserves) _ h in
    let (under, done) = reserves_from-AllUnder sources ctokens reserves ([], []) found e tt in
    subst
      (λ s.
        All
          (λ reserve.
            aggregator_of sources ctokens reserve
            ≡ ok (lookup reserve (Signals.token_signal_map s)))
          reserves
        × AllUnder sources ctokens (Signals.signal_token_map s))
      (ok_injective _ s h')
      (All-map reserves (λ r d. done-lookup sources ctokens r found.0 under d) done, under)
