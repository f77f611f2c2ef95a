-- ===== src/Router/Pools.antt =====
-- The pools of configs/router.py: which pool SwapV2 and SwapV3 choose for a pair of tokens, and
-- init_router_pools, which asks for one pool for every two markets.
use compound_liquidation.Prelude.{
  ℕ, ◌≤◌, String, Option, none, some, List, [], ◌∷◌, Result, ok, ltb, str_eq, if◌then◌else◌, ◌≡◌,
  refl, All, Bool-cases, inl, inr, arith, >>=-eq-ok, ok_injective, ◌⊎◌,
}
use mathlib.Core.Path.{subst}
use compound_liquidation.Prelude.{◌>>=◌ as and_then}
use compound_liquidation.Prelude.Int.{ℤ}
use compound_liquidation.Config.{address_zero}
use compound_liquidation.Router.{Pool}

-- the calls of the factory and of a pool of `SwapV2`
pub record FactoryV2 : Type 0 where
  pub get_pair : String → String → Result String
  pub get_reserves : (pair_addr : String) → Result (ℤ × ℤ)

-- `SwapV2.query_max_liq_pool`
unfoldable pub query_max_liq_pool : FactoryV2 → (fee : ℕ) → String × String → Result (Option Pool)
query_max_liq_pool f fee pair = and_then (FactoryV2.get_pair f pair.0 pair.1) (λ pair_addr.
    if str_eq pair_addr address_zero
    then ok none
    else and_then (FactoryV2.get_reserves f pair_addr) (λ res.
      ok (some (record { pair = pair; pool_addr = pair_addr; liquidity = res; fee = fee }))))

-- the calls of the factory and of a pool of `SwapV3`
pub record FactoryV3 : Type 0 where
  pub get_pool : String → String → (fee : ℕ) → Result String
  pub liquidity_of : (pair_addr : String) → Result ℕ

-- the `Pool` of `SwapV3`, whose liquidity is one number
pub record PoolV3 : Type 0 where
  pub pair : String × String
  pub pool_addr : String
  pub liquidity : ℕ
  pub fee : ℕ

-- `self.fees`
abbrev pub fee_tiers : List ℕ
fee_tiers = 100 ∷ 500 ∷ 3000 ∷ 10000 ∷ []

-- the pool of one fee, where there is one
unfoldable pub pool_of_fee : FactoryV3 → String × String → (fee : ℕ) → Result (Option PoolV3)
pool_of_fee f pair fee = and_then (FactoryV3.get_pool f pair.0 pair.1 fee) (λ pair_addr.
    if str_eq pair_addr address_zero
    then ok none
    else and_then (FactoryV3.liquidity_of f pair_addr) (λ liq.
      ok (some (record { pair = pair; pool_addr = pair_addr; liquidity = liq; fee = fee }))))

-- `max_liq`, which is that of `temp_pool`
unfoldable pub max_liq : Option PoolV3 → ℕ
max_liq none = 0
max_liq (some p) = p.liquidity

-- the test `liq > max_liq` of the loop
unfoldable pub larger : Option PoolV3 → Option PoolV3 → Option PoolV3
unfolding max_liq
larger temp_pool none = temp_pool
larger temp_pool (some p) = if ltb (max_liq temp_pool) p.liquidity then some p else temp_pool

unfoldable pub max_liq_pool_from :
    FactoryV3 → String × String → List ℕ → (temp_pool : Option PoolV3) → Result (Option PoolV3)
unfolding pool_of_fee larger
max_liq_pool_from f pair [] temp_pool = ok temp_pool
max_liq_pool_from f pair (fee ∷ rest) temp_pool =
    and_then (pool_of_fee f pair fee)
      (λ found. max_liq_pool_from f pair rest (larger temp_pool found))

-- `SwapV3.query_max_liq_pool`
unfoldable pub query_max_liq_pool_v3 : FactoryV3 → String × String → Result (Option PoolV3)
unfolding max_liq_pool_from
query_max_liq_pool_v3 f pair = max_liq_pool_from f pair fee_tiers none

-- The pool is no smaller than the one of each fee, and there is none only where each is empty.
abbrev pub IsLargest : FactoryV3 → String × String → List ℕ → Option PoolV3 → Type 0
IsLargest f pair l best =
    All
      (λ fee.
        (found : Option PoolV3) × (pool_of_fee f pair fee ≡ ok found)
        × (max_liq found ≤ max_liq best))
      l

larger-max_liq :
    (temp_pool found : Option PoolV3)
    → (max_liq temp_pool ≤ max_liq (larger temp_pool found))
      × (max_liq found ≤ max_liq (larger temp_pool found))
unfolding max_liq larger
larger-max_liq temp_pool none = (omega arith, omega arith)
larger-max_liq temp_pool (some p) = ground arith

max_liq_pool_from-IsLargest :
    (f : FactoryV3) (pair : String × String) (l : List ℕ) (temp_pool best : Option PoolV3)
    → max_liq_pool_from f pair l temp_pool ≡ ok best
    → (max_liq temp_pool ≤ max_liq best) × IsLargest f pair l best
unfolding max_liq_pool_from
max_liq_pool_from-IsLargest f pair [] temp_pool best h =
    (subst (λ p. max_liq temp_pool ≤ max_liq p) (ok_injective temp_pool best h) (omega arith), tt)
max_liq_pool_from-IsLargest f pair (fee ∷ rest) temp_pool best h =
    let (found, e, h') =
      >>=-eq-ok (pool_of_fee f pair fee)
        (λ found. max_liq_pool_from f pair rest (larger temp_pool found)) h in
    let (le, all) = max_liq_pool_from-IsLargest f pair rest (larger temp_pool found) best h' in
    let now = larger-max_liq temp_pool found in
    (omega (arith, now.0, le), ((found, e, omega (arith, now.1, le)), all))

-- a pool that the pair has at some fee, or no pool
abbrev pub IsPoolOf : FactoryV3 → String × String → Option PoolV3 → Type 0
IsPoolOf f pair best = (best ≡ none) ⊎ (fee : ℕ) × (pool_of_fee f pair fee ≡ ok best)

larger-IsPoolOf :
    (f : FactoryV3) (pair : String × String) (fee : ℕ) (temp_pool found : Option PoolV3)
    → pool_of_fee f pair fee ≡ ok found
    → IsPoolOf f pair temp_pool
    → IsPoolOf f pair (larger temp_pool found)
unfolding larger
larger-IsPoolOf f pair fee temp_pool none e h = h
larger-IsPoolOf f pair fee temp_pool (some p) e h =
    elim (Bool-cases (ltb (max_liq temp_pool) (PoolV3.liquidity p))) [
      | inl b ↦ rw b (inr (fee, e))
      | inr b ↦ rw b h
    ]

max_liq_pool_from-IsPoolOf :
    (f : FactoryV3) (pair : String × String) (l : List ℕ) (temp_pool best : Option PoolV3)
    → max_liq_pool_from f pair l temp_pool ≡ ok best
    → IsPoolOf f pair temp_pool
    → IsPoolOf f pair best
unfolding max_liq_pool_from
max_liq_pool_from-IsPoolOf f pair [] temp_pool best h is_pool =
    subst (IsPoolOf f pair) (ok_injective temp_pool best h) is_pool
max_liq_pool_from-IsPoolOf f pair (fee ∷ rest) temp_pool best h is_pool =
    let (found, e, h') =
      >>=-eq-ok (pool_of_fee f pair fee)
        (λ found. max_liq_pool_from f pair rest (larger temp_pool found)) h in
    max_liq_pool_from-IsPoolOf f pair rest (larger temp_pool found) best h'
      (larger-IsPoolOf f pair fee temp_pool found e is_pool)

-- Where query_max_liq_pool of SwapV3 returns, it returns the pair's pool at some fee, or none, and
-- no pool of the pair at one of the fees has more liquidity than the result, none counting as no
-- liquidity.
pub query_max_liq_pool_v3-IsLargest :
    (f : FactoryV3) (pair : String × String) (best : Option PoolV3)
    → query_max_liq_pool_v3 f pair ≡ ok best
    → IsPoolOf f pair best × IsLargest f pair fee_tiers best
unfolding query_max_liq_pool_v3
query_max_liq_pool_v3-IsLargest f pair best h = (
  max_liq_pool_from-IsPoolOf f pair fee_tiers none best h (inl refl),
  (max_liq_pool_from-IsLargest f pair fee_tiers none best h).1,
)
