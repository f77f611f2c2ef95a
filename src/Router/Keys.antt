-- ===== src/Router/Keys.antt =====
-- About the keys of the pools: gen_pool_key for both orders of a pair, add_liq_pool and get_liq_pool.
use Prim.Native.Nat.{Ordering, compare as compare_ℕ}
use Prim.Native.Char.{code}
use Prim.Native.String.{compare, then}
use Prim.Native.String as Text
use Prim.Native.String.compare
use text.Mathlib.TextEquality.{path_by_compare}
use compound_liquidation.Prelude.{
  ℕ, ◌+◌, String, ◌≡◌, ◌≢◌, refl, true, false, Option, Dict, lookup-insert, if◌then◌else◌, eq_refl,
  arith, ◌⊎◌, inl, inr,
}
use compound_liquidation.Prelude.Text.{str_lt}
use compound_liquidation.Router.{Pool, gen_pool_key, add_liq_pool, get_liq_pool}

flip : Ordering → Ordering
flip Ordering.lt = Ordering.gt
flip Ordering.eq = Ordering.eq
flip Ordering.gt = Ordering.lt

compare_ℕ-flip : (m n : ℕ) → compare_ℕ n m ≡ flip (compare_ℕ m n)
unfolding flip
compare_ℕ-flip m n = ground arith

then-flip : (a b c : Ordering) → c ≡ flip b → (then) (flip a) c ≡ flip ((then) a b)
unfolding flip
then-flip Ordering.lt b c h = refl
then-flip Ordering.eq b c h = h
then-flip Ordering.gt b c h = refl

compare-flip : (s t : String) → compare t s ≡ flip (compare s t)
unfolding flip
compare-flip Text.[] Text.[] = rw compare.nil-nil refl
compare-flip Text.[] (Text.◌∷◌ d t) = rw (compare.nil-cons, compare.cons-nil) refl
compare-flip (Text.◌∷◌ c s) Text.[] = rw (compare.nil-cons, compare.cons-nil) refl
compare-flip (Text.◌∷◌ c s) (Text.◌∷◌ d t) =
    rw (compare.cons-cons d c t s, compare.cons-cons c d s t, compare_ℕ-flip (code c) (code d))
      (then-flip (compare_ℕ (code c) (code d)) (compare s t) (compare t s) (compare-flip s t))

str_lt-flip :
    (a b : String)
    → a ≢ b
    → (str_lt a b ≡ true) × (str_lt b a ≡ false) ⊎ (str_lt a b ≡ false) × (str_lt b a ≡ true)
unfolding flip
str_lt-flip a b ne = by_order (compare a b) refl
  where
    by_order :
        (o : Ordering)
        → compare a b ≡ o
        → (str_lt a b ≡ true) × (str_lt b a ≡ false) ⊎ (str_lt a b ≡ false) × (str_lt b a ≡ true)
    by_order Ordering.lt e = inl (rw e refl, rw (compare-flip a b, e) refl)
    by_order Ordering.eq e = absurd (ne (path_by_compare a b e))
    by_order Ordering.gt e = inr (rw e refl, rw (compare-flip a b, e) refl)

-- Both orders of two different tokens have the same pool key, and the two places that gen_pool_key
-- gives are 0 and 1.
pub gen_pool_key_comm :
    (a b : String)
    → a ≢ b
    → ((gen_pool_key b a).0 ≡ (gen_pool_key a b).0)
      × ((gen_pool_key b a).1 + (gen_pool_key a b).1 ≡ 1)
unfolding gen_pool_key
gen_pool_key_comm a b ne = elim (str_lt-flip a b ne) [
  | inl (e, e') ↦ rw (e, e') (refl, refl)
  | inr (e, e') ↦ rw (e, e') (refl, refl)
]

-- After add_liq_pool of a pair of two different tokens, get_liq_pool returns the pool that was
-- queried for the pair in the order of its key, under either order of the pair.
pub get_liq_pool-add_liq_pool :
    (query : String × String → Option Pool) (a b : String) (pools : Dict (Option Pool))
    → a ≢ b
    → let now = add_liq_pool query (a, b) pools in
      let asked = if str_lt a b then query (a, b) else query (b, a) in
      (get_liq_pool (a, b) now ≡ asked) × (get_liq_pool (b, a) now ≡ asked)
unfolding get_liq_pool add_liq_pool gen_pool_key
get_liq_pool-add_liq_pool query a b pools ne = elim (str_lt-flip a b ne) [
  | inl (e, e') ↦
      let key = Text.◌++◌ a b in
      rw (e, e', lookup-insert key key (query (a, b)) pools, eq_refl key) (refl, refl)
  | inr (e, e') ↦
      let key = Text.◌++◌ b a in
      rw (e, e', lookup-insert key key (query (b, a)) pools, eq_refl key) (refl, refl)
]
