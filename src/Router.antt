-- ===== src/Router.antt =====
-- Swap routes through the pools: configs/router.py. A route is found backwards, from the amount that
-- must come out. The list of the routing tokens is a global that `Routs.__init__` changes, so it is
-- passed in and out.
pub mod Keys
pub mod Best
pub mod Swap
pub mod Pools
pub mod Setup
use compound_liquidation.Prelude.{
  ℕ, zero, suc, ◌+◌, ◌-◌, String, Bool, true, false, not, ◌&&◌, ◌||◌, Option, none, some, List, [],
  ◌∷◌, ◌++◌, map, Dict, lookup, insert, Result, ok, err, length, ◌==◌, str_eq, if◌then◌else◌,
}
use Prim.Native.String.{◌++◌ as concat_text}
use compound_liquidation.Prelude.Int.{ℤ, pos, negsuc, ◌+ℤ◌, ◌-ℤ◌, ◌*ℤ◌, ltb_ℤ, eqb_ℤ, floor_div}
use compound_liquidation.Prelude.Text.{str_lt}

pub record Pool : Type 0 where
  pub pair : String × String
  pub pool_addr : String
  pub liquidity : ℤ × ℤ
  pub fee : ℕ

-- `l[i]` of a pair
abbrev pub at_pair : ℤ × ℤ → ℕ → ℤ
at_pair l i = if i == 0 then l.0 else l.1

-- `Pool.check_liquidity`
pub check_liquidity : Pool → ℤ → ℕ → Bool
check_liquidity pool amount_out token_index = ltb_ℤ (at_pair pool.liquidity token_index) amount_out

-- The class is `Path` in the source.
pub record Hop : Type 0 where
  pub pool_addr : String
  pub fee : ℕ
  pub is_zero_for_one : ℕ
  pub token0 : String
  pub token1 : String
  pub amount_out : ℤ

-- the key of a pair of tokens, and the place of the first one in it
unfoldable pub gen_pool_key : String → String → String × ℕ
gen_pool_key token_a token_b =
    if str_lt token_a token_b
    then (concat_text token_a token_b, 0)
    else (concat_text token_b token_a, 1)

-- `SwapV2.swap_simulation`: the amount that goes in, and -1 where the pool is too small
unfoldable pub swap_simulation : Pool → ℤ → ℕ → Result ℤ
swap_simulation pool amount_out token_out_index =
    let x = at_pair pool.liquidity token_out_index in
    let y = at_pair pool.liquidity (1 - token_out_index) in
    if ltb_ℤ x (amount_out *ℤ pos 20)
    then ok (negsuc 0)
    else plus_one (
        floor_div (y *ℤ amount_out *ℤ pos 10000) ((x -ℤ amount_out) *ℤ (pos 10000 -ℤ pos pool.fee)))
  where
    plus_one : Result ℤ → Result ℤ
    plus_one (ok n) = ok (n +ℤ pos 1)
    plus_one (err e) = err e

-- `a in l`, and `l.remove(a)` of the first
unfoldable pub remove : String → List String → List String
remove a [] = []
remove a (b ∷ l) = if str_eq b a then l else b ∷ remove a l

pub record Routs : Type 0 where
  pub token_in : String
  pub token_out : String
  pub rout_tokens : List String
  pub paths : List Hop

-- `Routs.__init__`, with the global list as it leaves it: a token that is not there is not removed
unfoldable pub new_routs : String → String → (global : List String) → Routs × List String
unfolding remove
new_routs token_in token_out global =
    let rout_tokens = remove token_out (remove token_in global) in
    (
      record { token_in = token_in; token_out = token_out; rout_tokens = rout_tokens; paths = [] },
      rout_tokens,
    )

-- `gen_new_routs`, on every network but Ethereum
pub gen_new_routs : String → String → List String → Routs × List String
unfolding new_routs
gen_new_routs = new_routs

abbrev pub Swap : Type 0
Swap = Pool → ℤ → ℕ → Result ℤ

-- one swap: any exception of the simulation counts as -1
unfoldable pub single_rout_simulation :
    (token_in token_out : String) → ℤ → Swap → Dict (Option Pool) → ℤ × Option Hop
unfolding gen_pool_key
single_rout_simulation token_in token_out amount_out swap pools =
    let (key, token_in_index) = gen_pool_key token_in token_out in
    through (1 - token_in_index) (lookup key pools)
  where
    hop : ℕ → Pool → Hop
    hop index pool = record {
      pool_addr = pool.pool_addr;
      fee = pool.fee;
      is_zero_for_one = index;
      token0 = pool.pair.0;
      token1 = pool.pair.1;
      amount_out = amount_out;
    }

    priced : ℕ → Pool → Result ℤ → ℤ × Option Hop
    priced index pool (ok amount_in) = (amount_in, some (hop index pool))
    priced index pool (err e) = (negsuc 0, none)

    through : ℕ → Option (Option Pool) → ℤ × Option Hop
    through index none = (negsuc 0, none)
    through index (some none) = (negsuc 0, none)
    through index (some (some pool)) = priced index pool (swap pool amount_out index)

-- each element, with the others in their order
unfoldable pub select : {A : Type 0} → List A → List (A × List A)
select [] = []
select (x ∷ l) = (x, l) ∷ map (λ c. (c.0, x ∷ c.1)) (select l)

unfoldable pub concat : {A : Type 0} → List (List A) → List A
concat [] = []
concat (l ∷ rest) = l ++ concat rest

-- `itertools.permutations(l, n)`, in its order
unfoldable pub permutations : {A : Type 0} → ℕ → List A → List (List A)
unfolding select concat
permutations zero l = [] ∷ []
permutations (suc n) l = concat (map (λ c. map (λ p. c.0 ∷ p) (permutations n c.1)) (select l))

-- `res` of the loops `for insert in range(d + 1)`, from `insert` up, `n` of them
unfoldable pub choices : {A : Type 0} → (n insert : ℕ) → List A → List (List A)
unfolding permutations
choices zero insert l = []
choices (suc n) insert l = permutations insert l ++ choices n (suc insert) l

module _ (swap : Swap) (pools : Dict (Option Pool)) where
  -- the test after a swap: go on with the amount that went in, or stop
  unfoldable pub after_swap : List Hop → (ℤ → Hop → ℤ × List Hop) → ℤ × Option Hop → ℤ × List Hop
  after_swap paths_temp further (amount_in, none) = (amount_in, paths_temp)
  after_swap paths_temp further (amount_in, some hop) =
      if eqb_ℤ amount_in (negsuc 0) then (amount_in, paths_temp) else further amount_in hop

  -- the inner loop: from one token to the next until a swap fails
  unfoldable pub walk : (token_out : String) → List String → ℤ → List Hop → ℤ × List Hop
  unfolding single_rout_simulation after_swap
  walk token_out [] amount_out paths_temp = (amount_out, paths_temp)
  walk token_out (token_in ∷ rest) amount_out paths_temp =
      after_swap paths_temp
        (λ amount_in hop. walk token_in rest amount_in (paths_temp ++ (hop ∷ [])))
        (single_rout_simulation token_in token_out amount_out swap pools)

  -- one candidate against the best so far
  unfoldable pub better : ℤ × List Hop → ℤ × List Hop → ℤ × List Hop
  better best found =
      if not (eqb_ℤ found.0 (negsuc 0)) && (ltb_ℤ found.0 best.0 || eqb_ℤ best.0 (negsuc 0))
      then found
      else best

  unfoldable pub best_of : ℤ × List Hop → List (ℤ × List Hop) → ℤ × List Hop
  unfolding better
  best_of best [] = best
  best_of best (c ∷ rest) = best_of (better best c) rest

  -- the routes that `Routs.find_routs` tries, with their amounts
  unfoldable pub candidates : Routs → ℤ → List (ℤ × List Hop)
  unfolding choices walk
  candidates r final_out =
      map (λ res. walk r.token_out (res ++ (r.token_in ∷ [])) final_out [])
        (choices (suc (length r.rout_tokens)) 0 r.rout_tokens)

  unfoldable pub find_routs : Routs → ℤ → ℤ × List Hop
  unfolding best_of candidates
  find_routs r final_out = best_of (negsuc 0, []) (candidates r final_out)

-- `SwapV2.add_liq_pool`, where `query_max_liq_pool` is the call of the chain
unfoldable pub add_liq_pool :
    (query_max_liq_pool : String × String → Option Pool)
    → String × String
    → Dict (Option Pool)
    → Dict (Option Pool)
unfolding gen_pool_key
add_liq_pool query_max_liq_pool pair pools =
    let (key, token0_index) = gen_pool_key pair.0 pair.1 in
    let ordered = if token0_index == 0 then pair else (pair.1, pair.0) in
    insert key (query_max_liq_pool ordered) pools

unfoldable pub get_liq_pool : String × String → Dict (Option Pool) → Option Pool
unfolding gen_pool_key
get_liq_pool pair pools = join (lookup (gen_pool_key pair.0 pair.1).0 pools)
  where
    join : Option (Option Pool) → Option Pool
    join none = none
    join (some p) = p
