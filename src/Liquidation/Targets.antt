-- ===== src/Liquidation/Targets.antt =====
-- Which liquidation to send: profit_simulation of compound.py.
use compound_liquidation.Prelude.{
  String, ◌&&◌, Option, none, some, List, [], ◌∷◌, Dict, Result, ok, err, at_key, attribute_error,
  length, ◌==◌, if◌then◌else◌,
}
use compound_liquidation.Prelude.Int.{ℤ, pos, ◌-ℤ◌, ◌*ℤ◌, ltb_ℤ, leb_ℤ, fdiv}
use compound_liquidation.Prelude.Exec.{Exec, pure, lift, ◌>>=◌}
use compound_liquidation.Config.{exp_scale, desired_profit_scale}
use compound_liquidation.Tokens.{CtokenInfos, CtokenConfigs}
use compound_liquidation.Users.{current_price}
use compound_liquidation.Router.{Hop, Pool, Swap, Routs, gen_new_routs, find_routs}
use compound_liquidation.Liquidation.{LiqPair}

-- `ctk[ctoken].configs.underlying`, where the configurations may still be `None`
unfoldable pub underlying : Dict CtokenInfos → String → Result String
underlying ctk ctoken = named (at_key ctoken ctk)
  where
    configured : Option CtokenConfigs → Result String
    configured none = err attribute_error
    configured (some c) = ok c.underlying

    named : Result CtokenInfos → Result String
    named (err e) = err e
    named (ok infos) = configured infos.configs

-- `[pair, routs]`
pub record Target : Type 0 where
  pub pair : LiqPair
  pub routs : Routs

-- the profit of a pair with the amount that its swap takes
unfoldable pub profit_actual : LiqPair → (price exchange_rate swap_tokens : ℤ) → ℤ
profit_actual pair price exchange_rate swap_tokens =
    fdiv ((fdiv (pair.seize_tokens *ℤ exchange_rate) exp_scale -ℤ swap_tokens) *ℤ price) exp_scale

-- `gen_new_routs`, which changes the global list
unfoldable pub new_for : String → String → Exec (List String) Routs
new_for token_in token_out global =
    let (r, left) = gen_new_routs token_in token_out global in (ok r, left)

module _ (ctk : Dict CtokenInfos) (swap : Swap) (pools : Dict (Option Pool)) where
  -- the best target so far, with the profit to beat
  unfoldable pub improve : ℤ × Option Target → Target → ℤ × Option Target
  improve (max_profit, target) t =
      if ltb_ℤ max_profit t.pair.profit then (t.pair.profit, some t) else (max_profit, target)

  -- a route was found, or the pair is passed over
  unfoldable pub with_route :
      ℤ × Option Target → LiqPair → Routs → ℤ × List Hop → Exec (List String) (ℤ × Option Target)
  unfolding improve profit_actual
  with_route best pair routs found =
      if leb_ℤ found.0 (pos 0) && length found.1 == 0 then pure best else (do
        price ← lift (current_price ctk pair.col_ctoken)
        infos ← lift (at_key pair.col_ctoken ctk)
        pure (
            improve best (record {
              pair = record pair {
                profit = profit_actual pair price (CtokenInfos.risks infos).exchange_rate found.0;
              };
              routs = record routs { paths = found.1 };
            })))

  -- the body of the inner loop, where the state is the global list of routing tokens
  unfoldable pub try_pair :
      String → ℤ × Option Target → LiqPair → Exec (List String) (ℤ × Option Target)
  unfolding underlying with_route new_for
  try_pair debt_ctoken best pair =
      if ltb_ℤ pair.profit (pos desired_profit_scale) then pure best else (do
        token_in ← lift (underlying ctk pair.col_ctoken)
        token_out ← lift (underlying ctk debt_ctoken)
        routs ← new_for token_in token_out
        with_route best pair routs (find_routs swap pools routs pair.repay_amount))

  unfoldable pub try_pairs :
      String → ℤ × Option Target → List LiqPair → Exec (List String) (ℤ × Option Target)
  unfolding try_pair
  try_pairs debt_ctoken best [] = pure best
  try_pairs debt_ctoken best (pair ∷ pairs) = do
    best' ← try_pair debt_ctoken best pair
    try_pairs debt_ctoken best' pairs

  unfoldable pub try_all :
      ℤ × Option Target → Dict (List LiqPair) → Exec (List String) (ℤ × Option Target)
  unfolding try_pairs
  try_all best [] = pure best
  try_all best ((debt_ctoken, pairs) ∷ rest) = do
    best' ← try_pairs debt_ctoken best pairs
    try_all best' rest

  unfoldable pub profit_simulation : Dict (List LiqPair) → Exec (List String) (Option Target)
  unfolding try_all
  profit_simulation liq_pairs = do best ← try_all (pos 0, none) liq_pairs; pure best.1
