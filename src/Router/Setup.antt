-- ===== src/Router/Setup.antt =====
-- The pools at the start: add_liq_pool of SwapV2 as it asks the chain, init_router_pools, and
-- print_liq_pool of configs/router.py.
use Prim.Native.String as Text
use mathlib.Core.Path.{subst}
use Prim.Native.String.{count}
use text.Mathlib.TextLemmas.{append_inj}
use compound_liquidation.Prelude.{
  ℕ, String, Bool, Option, none, some, List, [], ◌∷◌, ◌++◌, map, Dict, lookup, insert,
  lookup-insert, Result, ok, err, attribute_error, ◌==◌, if◌then◌else◌, ◌≡◌, refl, sym, ◌∙◌, All,
  Bool-cases, inl, inr, str_eq, eq_iff, eq_refl, true, false, at_key,
}
use compound_liquidation.Prelude.{◌>>=◌ as and_then}
use compound_liquidation.Prelude.Exec.{Exec, lift, modify, each, ◌>>=◌, Returns, bind-Returns}
use compound_liquidation.Prelude.Loops.{each-Returns-All}
use compound_liquidation.Prelude.Text.{str_lt}
use compound_liquidation.Tokens.{CtokenInfos, CtokenConfigs}
use compound_liquidation.Router.{Pool, gen_pool_key}

-- `query_max_liq_pool`
abbrev pub Query : Type 0
Query = String × String → Result (Option Pool)

-- the pair in the order of its key
abbrev pub ordered : String × String → String × String
ordered pair = if (gen_pool_key pair.0 pair.1).1 == 0 then pair else (pair.1, pair.0)

-- `add_liq_pool`, which leaves the pools where the query raises
unfoldable pub add_queried_pool : Query → String × String → Exec (Dict (Option Pool)) (Unit {0})
add_queried_pool query pair =
    lift (query (ordered pair)) >>= (λ pool. modify (insert (gen_pool_key pair.0 pair.1).0 pool))

-- `ctoken_configs[reserve].configs.underlying`
unfoldable pub underlying_of : Dict CtokenInfos → String → Result String
underlying_of ctokens reserve = and_then (at_key reserve ctokens) (λ c.
    elim (CtokenInfos.configs c) [
      | none ↦ err attribute_error
      | some cfg ↦ ok (CtokenConfigs.underlying cfg)
    ])

-- what `i` and `j` run over: each element with each later one
unfoldable pub later_pairs : {A : Type 0} → List A → List (A × A)
later_pairs [] = []
later_pairs (x ∷ l) = map (λ y. (x, y)) l ++ later_pairs l

unfoldable pub add_market_pair :
    Query → Dict CtokenInfos → String × String → Exec (Dict (Option Pool)) (Unit {0})
unfolding add_queried_pool
add_market_pair query ctokens (r0, r1) = lift (underlying_of ctokens r0) >>= (λ token0.
    lift (underlying_of ctokens r1) >>= (λ token1. add_queried_pool query (token0, token1)))

unfoldable pub init_router_pools :
    Query → List String → Dict CtokenInfos → Exec (Dict (Option Pool)) (Unit {0})
unfolding later_pairs add_market_pair
init_router_pools query reserves ctokens =
    each (add_market_pair query ctokens) (later_pairs reserves)

-- `print_liq_pool`
unfoldable pub print_liq_pool : Dict (Option Pool) → Dict Pool
print_liq_pool [] = []
print_liq_pool ((k, none) ∷ pools) = print_liq_pool pools
print_liq_pool ((k, some v) ∷ pools) = (k, v) ∷ print_liq_pool pools

abbrev key_of : String × String → String
key_of pair = (gen_pool_key pair.0 pair.1).0

-- `gen_pool_key` of a pair in this order
abbrev key_by : String × String → Bool → String × ℕ
key_by pair is_first =
    if is_first then (Text.◌++◌ pair.0 pair.1, 0) else (Text.◌++◌ pair.1 pair.0, 1)

key_of-ordered :
    (pair : String × String) → key_of pair ≡ Text.◌++◌ (ordered pair).0 (ordered pair).1
unfolding gen_pool_key
key_of-ordered pair =
    elim (str_lt pair.0 pair.1)
      as (λ b.
        let first = if (key_by pair b).1 == 0 then pair else (pair.1, pair.0) in
        (key_by pair b).0 ≡ Text.◌++◌ first.0 first.1) [ true ↦ refl | false ↦ refl ]

-- both texts have n characters, as addresses do
abbrev pub HasLength : ℕ → String × String → Type 0
HasLength n pair = (count pair.0 ≡ n) × (count pair.1 ≡ n)

count-ordered : (n : ℕ) (pair : String × String) → HasLength n pair → count (ordered pair).0 ≡ n
unfolding gen_pool_key
count-ordered n pair h = elim (Bool-cases (str_lt pair.0 pair.1)) [
  | inl e ↦ rw e h.0
  | inr e ↦ rw e h.1
]

ordered-eq_of_key :
    (n : ℕ) (p q : String × String)
    → HasLength n p
    → HasLength n q
    → key_of p ≡ key_of q
    → ordered p ≡ ordered q
ordered-eq_of_key n p q hp hq e =
    let parts =
      append_inj (sym (key_of-ordered p) ∙ e ∙ key_of-ordered q)
        (count-ordered n p hp ∙ sym (count-ordered n q hq)) in
    λ i. (parts.0 i, parts.1 i)

-- the underlying tokens of the markets have n characters each
abbrev pub HaveLength : ℕ → Dict CtokenInfos → Type 0
HaveLength n ctokens =
    (reserve token : String) → underlying_of ctokens reserve ≡ ok token → count token ≡ n

module _ (query : Query) where
  -- the pools hold what the query answered for the pair
  abbrev pub HasPool : String × String → Dict (Option Pool) → Type 0
  HasPool pair pools =
      (p : Option Pool) × (lookup (key_of pair) pools ≡ some p) × (query (ordered pair) ≡ ok p)

  insert-HasPool :
      (n : ℕ) (new pair : String × String) (pool : Option Pool) (pools : Dict (Option Pool))
      → HasLength n new
      → HasLength n pair
      → query (ordered new) ≡ ok pool
      → HasPool pair pools
      → HasPool pair (insert (key_of new) pool pools)
  insert-HasPool n new pair pool pools hn hp q (p, found, e) =
      elim (Bool-cases (str_eq (key_of new) (key_of pair))) [
        | inl same ↦ (
          pool,
          rw (lookup-insert (key_of new) (key_of pair) pool pools, same) refl,
          let e = ordered-eq_of_key n new pair hn hp ((eq_iff (key_of new) (key_of pair)).0 same) in
              subst (λ o. query o ≡ ok pool) e q,
        )
        | inr other ↦
            (p, (rw (lookup-insert (key_of new) (key_of pair) pool pools, other) found), e)
      ]

  add_queried_pool-HasPool :
      (new : String × String) (pools : Dict (Option Pool))
      → Returns (HasPool new) (add_queried_pool query new) pools
  unfolding add_queried_pool
  add_queried_pool-HasPool new pools =
      bind-Returns (HasPool new) (lift (query (ordered new)))
        (λ pool. modify (insert (gen_pool_key new.0 new.1).0 pool)) pools
        (λ pool e _ _.
          let key = key_of new in
          (pool, rw (lookup-insert key key pool pools, eq_refl key) refl, e))

  keeps-HasPool :
      (n : ℕ) (new pair : String × String) (pools : Dict (Option Pool))
      → HasLength n new
      → HasLength n pair
      → HasPool pair pools
      → Returns (HasPool pair) (add_queried_pool query new) pools
  unfolding add_queried_pool
  keeps-HasPool n new pair pools hn hp h =
      bind-Returns (HasPool pair) (lift (query (ordered new)))
        (λ pool. modify (insert (gen_pool_key new.0 new.1).0 pool)) pools
        (λ pool e _ _. insert-HasPool n new pair pool pools hn hp e h)

  -- the pools hold what the query answered for the underlying tokens of two markets
  abbrev pub HasMarketPool : Dict CtokenInfos → String × String → Dict (Option Pool) → Type 0
  HasMarketPool ctokens reserves pools =
      (token0 token1 : String) × (underlying_of ctokens reserves.0 ≡ ok token0)
      × (underlying_of ctokens reserves.1 ≡ ok token1)
      × HasPool (token0, token1) pools

  add_market_pair-Returns :
      (ctokens : Dict CtokenInfos) (new : String × String) (Q : Dict (Option Pool) → Type 0)
      (pools : Dict (Option Pool))
      → ((token0 token1 : String)
          → underlying_of ctokens new.0 ≡ ok token0
          → underlying_of ctokens new.1 ≡ ok token1
          → Returns Q (add_queried_pool query (token0, token1)) pools)
      → Returns Q (add_market_pair query ctokens new) pools
  unfolding add_market_pair
  add_market_pair-Returns ctokens new Q pools h =
      bind-Returns Q (lift (underlying_of ctokens new.0))
        (λ token0.
          lift (underlying_of ctokens new.1)
          >>= (λ token1. add_queried_pool query (token0, token1)))
        pools
        (λ token0 e.
          bind-Returns Q (lift (underlying_of ctokens new.1))
            (λ token1. add_queried_pool query (token0, token1)) pools
            (λ token1 e'. h token0 token1 e e'))

  add_market_pair-HasMarketPool :
      (ctokens : Dict CtokenInfos) (new : String × String) (pools : Dict (Option Pool))
      → Returns (HasMarketPool ctokens new) (add_market_pair query ctokens new) pools
  add_market_pair-HasMarketPool ctokens new pools =
      add_market_pair-Returns ctokens new (HasMarketPool ctokens new) pools
        (λ token0 token1 e e' u h.
          (token0, token1, e, e', add_queried_pool-HasPool (token0, token1) pools u h))

  keeps-HasMarketPool :
      (n : ℕ) (ctokens : Dict CtokenInfos) (new pair : String × String) (pools : Dict (Option Pool))
      → HaveLength n ctokens
      → HasMarketPool ctokens pair pools
      → Returns (HasMarketPool ctokens pair) (add_market_pair query ctokens new) pools
  keeps-HasMarketPool n ctokens new pair pools lengths (a, b, ea, eb, has) =
      add_market_pair-Returns ctokens new (HasMarketPool ctokens pair) pools
        (λ token0 token1 e e' u h.
          let long : HasLength n (token0, token1) =
            (lengths new.0 token0 e, lengths new.1 token1 e') in
          let held : HasLength n (a, b) = (lengths pair.0 a ea, lengths pair.1 b eb) in
          (a, b, ea, eb, keeps-HasPool n (token0, token1) (a, b) pools long held has u h))

-- Where the underlying tokens are texts of one length and init_router_pools returns, for every two
-- of the markets the pools hold what the query answered for their underlying tokens in the order
-- of the key.
pub init_router_pools-HasMarketPool :
    (query : Query) (n : ℕ) (reserves : List String) (ctokens : Dict CtokenInfos)
    (pools : Dict (Option Pool))
    → HaveLength n ctokens
    → Returns
        (λ after. All (λ pair. HasMarketPool query ctokens pair after) (later_pairs reserves))
        (init_router_pools query reserves ctokens)
        pools
unfolding init_router_pools
init_router_pools-HasMarketPool query n reserves ctokens pools lengths =
    each-Returns-All (add_market_pair query ctokens) (HasMarketPool query ctokens)
      (λ pair new s has. keeps-HasMarketPool query n ctokens new pair s lengths has)
      (add_market_pair-HasMarketPool query ctokens) (later_pairs reserves) pools
