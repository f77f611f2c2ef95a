-- ===== src/Health/Sums.antt =====
-- About the sums of calculate_health_factor's loop, the order of the reserves and empty reserves.
use mathlib.Core.List.{Permᴰ}
use compound_liquidation.Prelude.{
  at_key, String, ◌≡◌, [], ◌∷◌, Dict, ok, arith, >>=-eq-ok, Bool-cases, inl, inr, true,
}
use compound_liquidation.Prelude.Int.{ℤ, ◌+ℤ◌, int_laws, pos}
use compound_liquidation.Tokens.{CompReserve, CtokenInfos, CtokenRiskParams}
use compound_liquidation.Comet.{CometConfigs}
use compound_liquidation.Users.{current_price}
use compound_liquidation.Users.Queries.{is_empty, trim_reserves}
use compound_liquidation.Health.{shares, contribution, health_sums}

add_comm : (a b c : ℤ) → a +ℤ b +ℤ c ≡ a +ℤ c +ℤ b
add_comm a b c = omega int_laws

add_zero : (a : ℤ) → a +ℤ pos 0 ≡ a
add_zero a = omega int_laws

shares-empty :
    (r : CompReserve) (price factor : ℤ) (risks : CtokenRiskParams) (c : ℤ × ℤ)
    → is_empty r ≡ true
    → shares r price factor risks ≡ ok c
    → (c.0 ≡ pos 0) × (c.1 ≡ pos 0)
unfolding is_empty shares
shares-empty r price factor risks c e h = (ground arith, ground arith)

module _ (ctk : Dict CtokenInfos) (comet : CometConfigs) where
  step :
      (a : String × CompReserve) (l : Dict CompReserve) (sums total : ℤ × ℤ)
      → health_sums ctk comet sums (a ∷ l) ≡ ok total
      → (c : ℤ × ℤ) × (contribution ctk comet a.0 a.1 ≡ ok c)
        × (health_sums ctk comet (sums.0 +ℤ c.0, sums.1 +ℤ c.1) l ≡ ok total)
  unfolding health_sums
  step a l sums total h = >>=-eq-ok (contribution ctk comet a.0 a.1) _ h

  unstep :
      (a : String × CompReserve) (l : Dict CompReserve) (sums total c : ℤ × ℤ)
      → contribution ctk comet a.0 a.1 ≡ ok c
      → health_sums ctk comet (sums.0 +ℤ c.0, sums.1 +ℤ c.1) l ≡ ok total
      → health_sums ctk comet sums (a ∷ l) ≡ ok total
  unfolding health_sums
  unstep a l sums total c h k = rw h k

  -- Reserves in another order have the same sums.
  pub health_sums-Perm :
      {l l' : Dict CompReserve} (sums total : ℤ × ℤ)
      → Permᴰ l l'
      → health_sums ctk comet sums l ≡ ok total
      → health_sums ctk comet sums l' ≡ ok total
  health_sums-Perm sums total Permᴰ.nil h = h
  health_sums-Perm sums total (Permᴰ.cons {a} {b} {l₁ = l} {l₂ = l'} e d) h =
      let (c, now, rest) = step a l sums total h in
      unstep b l' sums total c (rw (← e) now) (health_sums-Perm _ total d rest)
  health_sums-Perm sums total (Permᴰ.swap {a} {b} {a'} {b'} {l} e e') h =
      let (c, now, rest) = step a (b ∷ l) sums total h in
      let (c', now', rest') = step b l _ total rest in
      unstep a' (b' ∷ l) sums total c' (rw (← e') now') (
        unstep b' l _ total c (rw (← e) now)
          (rw (add_comm sums.0 c'.0 c.0, add_comm sums.1 c'.1 c.1) rest'))
  health_sums-Perm sums total (Permᴰ.trans d d') h =
      health_sums-Perm sums total d' (health_sums-Perm sums total d h)

  contribution-empty :
      (token : String) (r : CompReserve) (c : ℤ × ℤ)
      → is_empty r ≡ true
      → contribution ctk comet token r ≡ ok c
      → (c.0 ≡ pos 0) × (c.1 ≡ pos 0)
  unfolding contribution
  contribution-empty token r c e h =
      let (price, _, h') = >>=-eq-ok (current_price ctk token) _ h in
      let (factor, _, h'') = >>=-eq-ok (at_key token comet.ctokens_collateral_factor) _ h' in
      let (infos, _, last) = >>=-eq-ok (at_key token ctk) _ h'' in
      shares-empty r price factor infos.risks c e last

  -- Trimming a user's empty reserves does not change the sums of collateral and debt that the
  -- health factor is computed from, where these are returned.
  pub health_sums-trim_reserves :
      (l : Dict CompReserve) (sums total : ℤ × ℤ)
      → health_sums ctk comet sums l ≡ ok total
      → health_sums ctk comet sums (trim_reserves l) ≡ ok total
  unfolding trim_reserves
  health_sums-trim_reserves [] sums total h = h
  health_sums-trim_reserves ((token, r) ∷ l) sums total h =
      let (c, now, rest) = step (token, r) l sums total h in
      elim (Bool-cases (is_empty r)) [
        | inl e ↦
            let (zero, zero') = contribution-empty token r c e now in
            rw e (
              health_sums-trim_reserves l sums total
                (rw (zero, zero', add_zero sums.0, add_zero sums.1) at rest))
        | inr e ↦
            rw e (unstep (token, r) _ sums total c now (health_sums-trim_reserves l _ total rest))
      ]
