-- ===== src/Liquidation/Profit.antt =====
-- About the profit of the target that profit_simulation of compound.py returns.
use compound_liquidation.Prelude.{
  String, ◌≡◌, refl, sym, Option, none, some, List, [], ◌∷◌, Dict, Result, ok, err, arith,
  Bool-cases, inl, inr, at_key, length, ◌==◌, ◌&&◌,
}
use compound_liquidation.Prelude.Int.{
  ℤ, pos, ◌≤ℤ◌, ltb_ℤ, leb_ℤ, fdiv, ◌+ℤ◌, ◌-ℤ◌, ◌*ℤ◌, fdiv_bounds,
}
use compound_liquidation.Prelude.Exec.{lift, bind-returns}
use compound_liquidation.Config.{desired_profit_scale, exp_scale}
use compound_liquidation.Tokens.{CtokenInfos}
use compound_liquidation.Users.{current_price}
use compound_liquidation.Router.{Hop, Pool, Swap, Routs, find_routs}
use compound_liquidation.Liquidation.{LiqPair}
use compound_liquidation.Liquidation.Targets.{
  underlying, Target, profit_actual, improve, new_for, with_route, try_pair, try_pairs, try_all,
  profit_simulation,
}

module _ (ctk : Dict CtokenInfos) (swap : Swap) (pools : Dict (Option Pool)) where
  -- The profit of a target is what its seized tokens, less the amount that the swap of its route takes,
  -- are worth in dollars, rounded down; the route is the one that find_routs gives for the repayment.
  abbrev pub IsNet : Target → Type 0
  IsNet t =
      (price : ℤ) × (infos : CtokenInfos) × (swap_tokens : ℤ) × (current_price ctk t.pair.col_ctoken
        ≡ ok price)
      × (at_key t.pair.col_ctoken ctk ≡ ok infos)
      × (find_routs swap pools t.routs t.pair.repay_amount ≡ (swap_tokens, t.routs.paths))
      × (let net =
            fdiv (t.pair.seize_tokens *ℤ infos.risks.exchange_rate) exp_scale -ℤ swap_tokens in
          (pos exp_scale *ℤ t.pair.profit ≤ℤ net *ℤ price)
          × (net *ℤ price +ℤ pos 1 ≤ℤ pos exp_scale *ℤ t.pair.profit +ℤ pos exp_scale))

  -- the target beside the profit to beat
  abbrev pub Matches : ℤ → Option Target → Type 0
  Matches max_profit none = Unit
  Matches max_profit (some t) = (t.pair.profit ≡ max_profit) × (pos 1 ≤ℤ max_profit) × IsNet t

  -- the profit to beat is not negative, and a target has it
  abbrev pub Pays : ℤ × Option Target → Type 0
  Pays best = (pos 0 ≤ℤ best.0) × Matches best.0 best.1

  -- what a step returns, where it returns, pays
  abbrev pub ReturnsPays : Result (ℤ × Option Target) → Type 0
  ReturnsPays (ok best) = Pays best
  ReturnsPays (err e) = Unit

  -- a target that is returned has a profit above zero, net of the swap
  abbrev pub HasProfit : Result (Option Target) → Type 0
  HasProfit (ok none) = Unit
  HasProfit (ok (some t)) = (pos 1 ≤ℤ t.pair.profit) × IsNet t
  HasProfit (err e) = Unit

-- no claim on what a step returns
abbrev Returned : {A : Type 0} → Result A → Type 0
Returned r = Unit

module _ (ctk : Dict CtokenInfos) (swap : Swap) (pools : Dict (Option Pool)) where
  improve-Pays :
      (best : ℤ × Option Target) (t : Target)
      → Pays ctk swap pools best
      → IsNet ctk swap pools t
      → Pays ctk swap pools (improve ctk swap pools best t)
  unfolding improve
  improve-Pays best t h net = elim (Bool-cases (ltb_ℤ best.0 t.pair.profit)) [
    | inl e ↦ rw e (ground arith, (refl, ground arith, net))
    | inr e ↦ rw e h
  ]

  -- the target that with_route makes
  made : LiqPair → Routs → (price exchange_rate : ℤ) → ℤ × List Hop → Target
  made pair routs price exchange_rate found = record {
    pair = record pair { profit = profit_actual pair price exchange_rate found.0 };
    routs = record routs { paths = found.1 };
  }

  made-IsNet :
      (pair : LiqPair) (routs : Routs) (price : ℤ) (infos : CtokenInfos)
      → current_price ctk pair.col_ctoken ≡ ok price
      → at_key pair.col_ctoken ctk ≡ ok infos
      → IsNet ctk swap pools (
          made pair routs price infos.risks.exchange_rate
            (find_routs swap pools routs pair.repay_amount))
  unfolding made profit_actual find_routs
  made-IsNet pair routs price infos e e' =
      let found = find_routs swap pools routs pair.repay_amount in
      let net = fdiv (pair.seize_tokens *ℤ infos.risks.exchange_rate) exp_scale -ℤ found.0 in
      (price, infos, found.0, e, e', refl, fdiv_bounds (net *ℤ price) exp_scale (omega arith))

  -- what the lookups of with_route give, where they return
  abbrev Gives : {A : Type 0} → Result A → Result A → Type 0
  Gives r r' = r' ≡ r

  with_route-Pays :
      (best : ℤ × Option Target) (pair : LiqPair) (routs : Routs) (g : List String)
      → Pays ctk swap pools best
      → ReturnsPays ctk swap pools
          (with_route ctk swap pools best pair routs
            (find_routs swap pools routs pair.repay_amount)
            g).0
  unfolding with_route made
  with_route-Pays best pair routs g h =
      let found = find_routs swap pools routs pair.repay_amount in
      let price_of = current_price ctk pair.col_ctoken in
      let infos_of = at_key pair.col_ctoken ctk in
      let pays = ReturnsPays ctk swap pools in
      elim (Bool-cases (leb_ℤ found.0 (pos 0) && length found.1 == 0)) [
        | inl e ↦ rw e h
        | inr e ↦ rw e (
            bind-returns (Gives price_of) pays (lift price_of) _ g refl (λ x. tt)
              λ price t e1.
                bind-returns (Gives infos_of) pays (lift infos_of) _ t refl (λ x. tt)
                  λ infos t' e2.
                    improve-Pays best
                      (made pair routs price (CtokenInfos.risks infos).exchange_rate found) h
                      (made-IsNet pair routs price infos (sym e1) (sym e2)))
      ]

  try_pair-Pays :
      (debt_ctoken : String) (best : ℤ × Option Target) (pair : LiqPair) (g : List String)
      → Pays ctk swap pools best
      → ReturnsPays ctk swap pools (try_pair ctk swap pools debt_ctoken best pair g).0
  unfolding try_pair
  try_pair-Pays debt_ctoken best pair g h =
      elim (Bool-cases (ltb_ℤ pair.profit (pos desired_profit_scale))) [
        | inl e ↦ rw e h
        | inr e ↦ rw e (
            bind-returns Returned (ReturnsPays ctk swap pools)
              (lift (underlying ctk pair.col_ctoken)) _ g tt (λ e'. tt)
              λ token_in t _.
                bind-returns Returned (ReturnsPays ctk swap pools)
                  (lift (underlying ctk debt_ctoken)) _ t tt (λ e'. tt)
                  λ token_out t' _.
                    bind-returns Returned (ReturnsPays ctk swap pools) (new_for token_in token_out)
                      (λ routs.
                        with_route ctk swap pools best pair routs
                          (find_routs swap pools routs pair.repay_amount))
                      t' tt (λ e'. tt) λ routs t'' _. with_route-Pays best pair routs t'' h)
      ]

  try_pairs-Pays :
      (debt_ctoken : String) (best : ℤ × Option Target) (pairs : List LiqPair) (g : List String)
      → Pays ctk swap pools best
      → ReturnsPays ctk swap pools (try_pairs ctk swap pools debt_ctoken best pairs g).0
  unfolding try_pairs
  try_pairs-Pays debt_ctoken best [] g h = h
  try_pairs-Pays debt_ctoken best (pair ∷ pairs) g h =
      bind-returns (ReturnsPays ctk swap pools) (ReturnsPays ctk swap pools)
        (try_pair ctk swap pools debt_ctoken best pair) _ g
        (try_pair-Pays debt_ctoken best pair g h) (λ e. tt)
        λ best' t h'. try_pairs-Pays debt_ctoken best' pairs t h'

  try_all-Pays :
      (best : ℤ × Option Target) (l : Dict (List LiqPair)) (g : List String)
      → Pays ctk swap pools best
      → ReturnsPays ctk swap pools (try_all ctk swap pools best l g).0
  unfolding try_all
  try_all-Pays best [] g h = h
  try_all-Pays best ((debt_ctoken, pairs) ∷ rest) g h =
      bind-returns (ReturnsPays ctk swap pools) (ReturnsPays ctk swap pools)
        (try_pairs ctk swap pools debt_ctoken best pairs) _ g
        (try_pairs-Pays debt_ctoken best pairs g h) (λ e. tt)
        λ best' t h'. try_all-Pays best' rest t h'

  best-HasProfit :
      (best : ℤ × Option Target) → Pays ctk swap pools best → HasProfit ctk swap pools (ok best.1)
  best-HasProfit (m, none) h = tt
  best-HasProfit (m, some t) h = (rw (h.1.0) h.1.1, h.1.2)

  -- Where profit_simulation returns a target, its profit is above zero, and it is what the seized
  -- tokens at the exchange rate, less the amount that find_routs gives for the repayment over the
  -- target's route, are worth at the price of the collateral, rounded down.
  pub profit_simulation-HasProfit :
      (liq_pairs : Dict (List LiqPair)) (g : List String)
      → HasProfit ctk swap pools (profit_simulation ctk swap pools liq_pairs g).0
  unfolding profit_simulation
  profit_simulation-HasProfit liq_pairs g =
      bind-returns (ReturnsPays ctk swap pools) (HasProfit ctk swap pools)
        (try_all ctk swap pools (pos 0, none) liq_pairs) _ g
        (try_all-Pays (pos 0, none) liq_pairs g (omega arith, tt)) (λ e. tt)
        λ best t h. best-HasProfit best h
