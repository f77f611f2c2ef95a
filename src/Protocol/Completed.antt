-- ===== src/Protocol/Completed.antt =====
-- About complete_ctokens_configs_info and complete_ctokens_price_info: which markets are complete after
-- them.
use compound_liquidation.Prelude.{
  String, some, List, [], ◌∷◌, Dict, lookup, adjust, lookup-adjust, Result, ok, ◌≡◌, refl, All,
  All-map, str_eq, Bool-cases, Option-cases, inl, inr, eq_refl, err,
}
use compound_liquidation.Prelude.Int.{ℤ}
use compound_liquidation.Prelude.Exec.{Returns, bind-Returns, lift, ◌>>◌}
use compound_liquidation.Prelude.Loops.{each-Returns-All}
use compound_liquidation.Prelude.Preserves.{
  Preserves, Preserves-bind, Preserves-reads, Preserves-each,
}
use compound_liquidation.Price.{CtokenPrice, new_ctoken_price}
use compound_liquidation.Users.Access.{set_risks}
use compound_liquidation.Tokens.{CtokenInfos, CtokenConfigs, CtokenRiskParams}
use compound_liquidation.Protocol.{
  RiskCalls, complete_protocol_seized, complete_risks, complete_ctokens_risks, at_ctoken,
  complete_configs, complete_ctokens_configs_info, complete_price, complete_ctokens_price_info,
  complete_ctokens,
}

module _ (P : CtokenInfos → Type 0) where
  -- the market is there, with the property
  abbrev pub At : String → Dict CtokenInfos → Type 0
  At r obj = (c : CtokenInfos) × (lookup r obj ≡ some c) × P c

  adjust-At :
      (k r : String) (f : CtokenInfos → CtokenInfos) (obj : Dict CtokenInfos)
      → ((c : CtokenInfos) → P c → P (f c))
      → At r obj
      → At r (adjust k f obj)
  adjust-At k r f obj h (c, e, p) = elim (Bool-cases (str_eq k r)) [
    | inl same ↦ (f c, (rw (lookup-adjust k r f obj, same, e) refl), h c p)
    | inr other ↦ (c, (rw (lookup-adjust k r f obj, other) e), p)
  ]

  at_ctoken-keeps :
      (k r : String) (f : CtokenInfos → CtokenInfos)
      → ((c : CtokenInfos) → P c → P (f c))
      → Preserves (At r) (at_ctoken k f)
  unfolding at_ctoken
  at_ctoken-keeps k r f h = record {
    at = λ obj a. elim (Option-cases (lookup k obj)) [
      | inl e ↦ rw (e, at_ctoken) a
      | inr (c, e) ↦ rw (e, at_ctoken) (adjust-At k r f obj h a)
    ];
  }

  at_ctoken-At :
      (k : String) (f : CtokenInfos → CtokenInfos) (obj : Dict CtokenInfos)
      → ((c : CtokenInfos) → P (f c))
      → Returns (At k) (at_ctoken k f) obj
  unfolding at_ctoken
  at_ctoken-At k f obj h = elim (Option-cases (lookup k obj)) [
    | inl e ↦ rw (e, at_ctoken) (λ u x. cc)
    | inr (c, e) ↦
        rw (e, at_ctoken) (λ u x. (f c, (rw (lookup-adjust k k f obj, eq_refl k, e) refl), h c))
  ]

abbrev pub HasConfigs : CtokenInfos → Type 0
HasConfigs c = (cfg : CtokenConfigs) × (c.configs ≡ some cfg)

abbrev pub HasPrice : CtokenInfos → Type 0
HasPrice c = (p : CtokenPrice) × (c.price ≡ some p)

abbrev with_configs : CtokenConfigs → CtokenInfos → CtokenInfos
with_configs cfg c = record c { configs = some cfg }

abbrev with_price : CtokenPrice → CtokenInfos → CtokenInfos
with_price p c = record c { price = some p }

configs-HasConfigs :
    (query : String → Result CtokenConfigs) (k : String) (obj : Dict CtokenInfos)
    → Returns (At HasConfigs k) (complete_configs query k) obj
unfolding complete_configs
configs-HasConfigs query k obj =
    bind-Returns (At HasConfigs k) (lift (query k)) (λ cfg. at_ctoken k (with_configs cfg)) obj
      (λ cfg e. at_ctoken-At HasConfigs k (with_configs cfg) obj (λ c. (cfg, refl)))

configs-keeps :
    (query : String → Result CtokenConfigs) (r k : String)
    → Preserves (At HasConfigs r) (complete_configs query k)
unfolding complete_configs
configs-keeps query r k =
    Preserves-bind (Preserves-reads (λ _. query k))
      (λ cfg. at_ctoken-keeps HasConfigs k r (with_configs cfg) (λ c h. (cfg, refl)))

-- an assignment to the risks of a market
risks-assign :
    (r k : String) (f : CtokenRiskParams → CtokenRiskParams)
    → Preserves (At HasConfigs r) (at_ctoken k (set_risks f))
risks-assign r k f = at_ctoken-keeps HasConfigs k r (set_risks f) (λ c h. h)

seized-keeps :
    (calls : RiskCalls) (r k : String)
    → Preserves (At HasConfigs r) (complete_protocol_seized calls k)
unfolding complete_protocol_seized
seized-keeps calls r k = by_answer (RiskCalls.protocol_seize_share_mantissa calls k) refl
  where
    by_answer :
        (answer : Result ℤ)
        → RiskCalls.protocol_seize_share_mantissa calls k ≡ answer
        → Preserves (At HasConfigs r) (complete_protocol_seized calls k)
    by_answer (err x) e = record { at = λ obj a. rw (e, complete_protocol_seized) a }
    by_answer (ok share) e = record {
      at = λ obj a.
          rw (e, complete_protocol_seized)
            (adjust-At HasConfigs k r (set_risks λ p. record p { protocol_seized = share }) obj
              (λ c has. has) a);
    }

risks-keeps :
    (calls : RiskCalls) (r k : String) → Preserves (At HasConfigs r) (complete_risks calls k)
unfolding complete_risks
risks-keeps calls r k =
    Preserves-bind (Preserves-reads (λ _. RiskCalls.reserve_factor_mantissa calls k)) (λ factor.
      Preserves-bind (risks-assign r k (λ p. record p { reserve_factor = factor })) (λ _.
        Preserves-bind (Preserves-reads (λ _. RiskCalls.exchange_rate_stored calls k)) (λ rate.
          Preserves-bind (risks-assign r k (λ p. record p { exchange_rate = rate }))
            (λ _. seized-keeps calls r k))))

prices-HasPrice :
    (g : String → Result ℤ) (now : ℤ) (k : String) (obj : Dict CtokenInfos)
    → Returns (At HasPrice k) (complete_price g now k) obj
unfolding complete_price
prices-HasPrice g now k obj =
    bind-Returns (At HasPrice k) (lift (g k))
      (λ price. at_ctoken k (with_price (new_ctoken_price price now))) obj
      (λ price e.
        let p = new_ctoken_price price now in
        at_ctoken-At HasPrice k (with_price p) obj (λ c. (p, refl)))

prices-keeps :
    (P : CtokenInfos → Type 0) (g : String → Result ℤ) (now : ℤ) (r k : String)
    → ((c : CtokenInfos) (p : CtokenPrice) → P c → P (with_price p c))
    → Preserves (At P r) (complete_price g now k)
unfolding complete_price
prices-keeps P g now r k h = Preserves-bind (Preserves-reads (λ _. g k)) (λ price.
    let p = new_ctoken_price price now in at_ctoken-keeps P k r (with_price p) (λ c. h c p))

-- The market is there, with its configuration and its price.
abbrev pub IsComplete : String → Dict CtokenInfos → Type 0
IsComplete r obj = At HasConfigs r obj × At HasPrice r obj

configs-AllAt :
    (query : String → Result CtokenConfigs) (reserves : List String) (obj : Dict CtokenInfos)
    → Returns
        (λ now. All (λ r. At HasConfigs r now) reserves)
        (complete_ctokens_configs_info query reserves)
        obj
unfolding complete_ctokens_configs_info
configs-AllAt query reserves obj =
    each-Returns-All (complete_configs query) (At HasConfigs)
      (λ r k s a u h. Preserves.at (configs-keeps query r k) s a) (configs-HasConfigs query)
      reserves obj

prices-AllAt :
    (g : String → Result ℤ) (now : ℤ) (reserves : List String) (obj : Dict CtokenInfos)
    → Returns
        (λ after. All (λ r. At HasPrice r after) reserves)
        (complete_ctokens_price_info g now reserves)
        obj
unfolding complete_ctokens_price_info
prices-AllAt g now reserves obj =
    each-Returns-All (complete_price g now) (At HasPrice)
      (λ r k s a u h. Preserves.at (prices-keeps HasPrice g now r k (λ c p _. (p, refl))) s a)
      (prices-HasPrice g now) reserves obj

All-both : (P Q : String → Type 0) (l : List String) → All P l → All Q l → All (λ r. P r × Q r) l
All-both P Q [] h k = tt
All-both P Q (x ∷ l) h k = ((h.0, k.0), All-both P Q l h.1 k.1)

later-keeps :
    (calls : RiskCalls) (g : String → Result ℤ) (now : ℤ) (reserves : List String) (r : String)
    → Preserves
        (At HasConfigs r)
        (complete_ctokens_risks calls reserves >> complete_ctokens_price_info g now reserves)
unfolding complete_ctokens_risks complete_ctokens_price_info
later-keeps calls g now reserves r =
    Preserves-bind (Preserves-each (risks-keeps calls r) reserves)
      (λ _. Preserves-each (λ k. prices-keeps HasConfigs g now r k (λ c p h. h)) reserves)

-- Where the completions of configurations, risks and prices return one after the other, each
-- market of the list is there with a configuration and with a price.
pub complete_ctokens-IsComplete :
    (query : String → Result CtokenConfigs) (calls : RiskCalls)
    (get_underlying_price : String → Result ℤ) (now : ℤ) (reserves : List String)
    (obj : Dict CtokenInfos)
    → Returns
        (λ after. All (λ r. IsComplete r after) reserves)
        (complete_ctokens query calls get_underlying_price now reserves)
        obj
unfolding complete_ctokens
complete_ctokens-IsComplete query calls g now reserves obj =
    let configs = complete_ctokens_configs_info query reserves in
    let risks = complete_ctokens_risks calls reserves in
    let prices = complete_ctokens_price_info g now reserves in
    bind-Returns (λ after. All (λ r. IsComplete r after) reserves) configs (λ _. risks >> prices)
      obj
      (λ u e v h.
        let mid = (configs obj).1 in
        let after = ((risks >> prices) mid).1 in
        All-both (λ r. At HasConfigs r after) (λ r. At HasPrice r after) reserves
          (All-map reserves (λ r a. Preserves.at (later-keeps calls g now reserves r) mid a)
            (configs-AllAt query reserves obj u e))
          (bind-Returns (λ t. All (λ r. At HasPrice r t) reserves) risks (λ _. prices) mid
            (λ x y. prices-AllAt g now reserves (risks mid).1) v h))
