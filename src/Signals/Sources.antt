-- ===== src/Signals/Sources.antt =====
-- The two maps of configs/signals.py between aggregators and tokens: append in query_reserves_aggregator,
-- and signal_token_inverse.
use mathlib.Core.Path.{subst}
use mathlib.Core.Option.{some-injective}
use compound_liquidation.Prelude.{
  String, Option, none, some, List, [], ◌∷◌, ◌++◌, Dict, lookup, insert, lookup-insert, Result, ok,
  if◌then◌else◌, get_or, str_eq, ◌>>=◌, ◌≡◌, refl, sym, ◌∙◌, ◌⊎◌, inl, inr, All, Bool-cases, eq_iff,
}
use compound_liquidation.Prelude.Text.{lower}
use compound_liquidation.Config.{address_zero}
use compound_liquidation.Tokens.{CtokenInfos}
use compound_liquidation.Signals.{AggregatorInfos, inverse_of, inverse_from}
use compound_liquidation.Signals.Setup.{Sources, reporter_of, append_info}

module _ (sources : Sources) (ctokens : Dict CtokenInfos) where
  -- the aggregator of a market, in lower case, where its source is not the zero address
  unfoldable pub aggregator_of : (reserve : String) → Result (Option String)
  aggregator_of reserve = reporter_of ctokens reserve >>= (λ source.
      if str_eq source address_zero
      then ok none
      else Sources.query_aggregator sources source >>= (λ aggregator. ok (some (lower aggregator))))

  abbrev pub IsOf : String → AggregatorInfos → Type 0
  IsOf k info = aggregator_of info.token ≡ ok (some k)

  -- each market stands under its own aggregator
  abbrev pub AllUnder : Dict (List AggregatorInfos) → Type 0
  AllUnder = All (λ e. All (IsOf e.0) e.1)

  All-append :
      (k : String) (l : List AggregatorInfos) (info : AggregatorInfos)
      → All (IsOf k) l
      → IsOf k info
      → All (IsOf k) (l ++ (info ∷ []))
  All-append k [] info h e = (e, tt)
  All-append k (i ∷ l) info h e = (h.0, All-append k l info h.1 e)

  insert-AllUnder :
      (k : String) (l : List AggregatorInfos) (dic : Dict (List AggregatorInfos))
      → All (IsOf k) l
      → AllUnder dic
      → AllUnder (insert k l dic)
  insert-AllUnder k l [] e h = (e, tt)
  insert-AllUnder k l ((j, old) ∷ dic) e h = elim (Bool-cases (str_eq j k)) [
    | inl same ↦ rw same (subst (λ k. All (IsOf k) l) (sym ((eq_iff j k).0 same)) e, h.1)
    | inr other ↦ rw other (h.0, insert-AllUnder k l dic e h.1)
  ]

  get_or-AllUnder :
      (k : String) (dic : Dict (List AggregatorInfos))
      → AllUnder dic
      → All (IsOf k) (get_or (lookup k dic) [])
  get_or-AllUnder k [] h = tt
  get_or-AllUnder k ((j, l) ∷ dic) h = elim (Bool-cases (str_eq j k)) [
    | inl same ↦ rw same (subst (λ k. All (IsOf k) l) ((eq_iff j k).0 same) h.0)
    | inr other ↦ rw other (get_or-AllUnder k dic h.1)
  ]

  pub append_info-AllUnder :
      (k : String) (info : AggregatorInfos) (dic : Dict (List AggregatorInfos))
      → IsOf k info
      → AllUnder dic
      → AllUnder (append_info k info dic)
  unfolding append_info
  append_info-AllUnder k info dic e h =
      let old = get_or (lookup k dic) [] in
      insert-AllUnder k (old ++ (info ∷ [])) dic (All-append k old info (get_or-AllUnder k dic h) e)
        h

-- the token stands in some list
abbrev pub Stands : String → List AggregatorInfos → Type 0
Stands t [] = ⊥
Stands t (i ∷ l) = (i.token ≡ t) ⊎ Stands t l

abbrev pub Occurs : String → Dict (List AggregatorInfos) → Type 0
Occurs t [] = ⊥
Occurs t ((j, l) ∷ dic) = Stands t l ⊎ Occurs t dic

append-Stands :
    (t : String) (l : List AggregatorInfos) (info : AggregatorInfos)
    → (Stands t l → Stands t (l ++ (info ∷ []))) × (info.token ≡ t → Stands t (l ++ (info ∷ [])))
append-Stands t [] info = (λ h. absurd h, λ e. inl e)
append-Stands t (i ∷ l) info =
    let (old, new) = append-Stands t l info in
    (λ h. elim h [ inl e ↦ inl e | inr k ↦ inr (old k) ], λ e. inr (new e))

insert-Occurs :
    (t k : String) (l : List AggregatorInfos) (dic : Dict (List AggregatorInfos))
    → Stands t l
    → Occurs t (insert k l dic)
insert-Occurs t k l [] h = inl h
insert-Occurs t k l ((j, old) ∷ dic) h = elim (Bool-cases (str_eq j k)) [
  | inl same ↦ rw same (inl h)
  | inr other ↦ rw other (inr (insert-Occurs t k l dic h))
]

insert-Occurs_keeps :
    (t k : String) (l : List AggregatorInfos) (dic : Dict (List AggregatorInfos))
    → (Stands t (get_or (lookup k dic) []) → Stands t l)
    → Occurs t dic
    → Occurs t (insert k l dic)
insert-Occurs_keeps t k l [] h o = inl (absurd o)
insert-Occurs_keeps t k l ((j, old) ∷ dic) h o = elim (Bool-cases (str_eq j k)) [
  | inl same ↦ rw same (elim o [ inl s ↦ inl ((rw same at h) s) | inr later ↦ inr later ])
  | inr other ↦ rw other (elim o [
    | inl s ↦ inl s
    | inr later ↦ inr (insert-Occurs_keeps t k l dic (rw other at h) later)
  ])
]

pub append_info-Occurs :
    (t k : String) (info : AggregatorInfos) (dic : Dict (List AggregatorInfos))
    → (Occurs t dic → Occurs t (append_info k info dic))
      × (info.token ≡ t → Occurs t (append_info k info dic))
unfolding append_info
append_info-Occurs t k info dic =
    let l = get_or (lookup k dic) [] in
    let (old, new) = append-Stands t l info in
    (
      insert-Occurs_keeps t k (l ++ (info ∷ [])) dic old,
      λ e. insert-Occurs t k (l ++ (info ∷ [])) dic (new e),
    )

-- the inverse
module _ (IsTrue : String → String → Type 0) where
  -- each token of the map stands under a key that is true of it
  abbrev pub AllTrue : Dict String → Type 0
  AllTrue = All (λ e. IsTrue e.0 e.1)

  insert-AllTrue :
      (t k : String) (m : Dict String) → IsTrue t k → AllTrue m → AllTrue (insert t k m)
  insert-AllTrue t k [] e h = (e, tt)
  insert-AllTrue t k ((j, v) ∷ m) e h = elim (Bool-cases (str_eq j t)) [
    | inl same ↦ rw same (subst (λ j. IsTrue j k) (sym ((eq_iff j t).0 same)) e, h.1)
    | inr other ↦ rw other (h.0, insert-AllTrue t k m e h.1)
  ]

  pub lookup-AllTrue :
      (t k : String) (m : Dict String) → lookup t m ≡ some k → AllTrue m → IsTrue t k
  lookup-AllTrue t k [] e h = cc
  lookup-AllTrue t k ((j, v) ∷ m) e h = elim (Bool-cases (str_eq j t)) [
    | inl same ↦ ends ((eq_iff j t).0 same) (rw same at e)
    | inr other ↦ lookup-AllTrue t k m (rw other at e) h.1
  ]
    where
      ends : j ≡ t → some v ≡ some k → IsTrue t k
      ends ej ev = subst (λ x. IsTrue x k) ej (subst (λ y. IsTrue j y) (some-injective v k ev) h.0)

  inverse_of-AllTrue :
      (k : String) (l : List AggregatorInfos) (m : Dict String)
      → All (λ i. IsTrue (AggregatorInfos.token i) k) l
      → AllTrue m
      → AllTrue (inverse_of k l m)
  unfolding inverse_of
  inverse_of-AllTrue k [] m h hm = hm
  inverse_of-AllTrue k (i ∷ l) m h hm =
      inverse_of-AllTrue k l (insert i.token k m) h.1 (insert-AllTrue i.token k m h.0 hm)

  pub inverse_from-AllTrue :
      (dic : Dict (List AggregatorInfos)) (m : Dict String)
      → All (λ e. All (λ i. IsTrue (AggregatorInfos.token i) e.0) e.1) dic
      → AllTrue m
      → AllTrue (inverse_from dic m)
  unfolding inverse_from
  inverse_from-AllTrue [] m h hm = hm
  inverse_from-AllTrue ((k, l) ∷ dic) m h hm =
      inverse_from-AllTrue dic (inverse_of k l m) h.1 (inverse_of-AllTrue k l m h.0 hm)

abbrev IsPresent : String → Dict String → Type 0
IsPresent t m = (k : String) × (lookup t m ≡ some k)

insert-IsPresent :
    (t j k : String) (m : Dict String)
    → (IsPresent t m → IsPresent t (insert j k m)) × (j ≡ t → IsPresent t (insert j k m))
insert-IsPresent t j k m = elim (Bool-cases (str_eq j t)) [
  | inl same ↦ let now = lookup-insert j t k m ∙ (rw same refl) in (λ h. (k, now), λ e. (k, now))
  | inr other ↦
      (λ h. (h.0, rw (lookup-insert j t k m, other) h.1), λ e. let now = (eq_iff j t).1 e in cc)
]

inverse_of-IsPresent :
    (t k : String) (l : List AggregatorInfos) (m : Dict String)
    → (IsPresent t m → IsPresent t (inverse_of k l m))
      × (Stands t l → IsPresent t (inverse_of k l m))
unfolding inverse_of
inverse_of-IsPresent t k [] m = (λ h. h, λ h. absurd h)
inverse_of-IsPresent t k (i ∷ l) m =
    let (old, new) = inverse_of-IsPresent t k l (insert i.token k m) in
    let (before, now) = insert-IsPresent t i.token k m in
    (λ h. old (before h), λ h. elim h [ inl e ↦ old (now e) | inr s ↦ new s ])

pub inverse_from-IsPresent :
    (t : String) (dic : Dict (List AggregatorInfos)) (m : Dict String)
    → (IsPresent t m → IsPresent t (inverse_from dic m))
      × (Occurs t dic → IsPresent t (inverse_from dic m))
unfolding inverse_from
inverse_from-IsPresent t [] m = (λ h. h, λ h. absurd h)
inverse_from-IsPresent t ((k, l) ∷ dic) m =
    let (old, new) = inverse_from-IsPresent t dic (inverse_of k l m) in
    let (before, now) = inverse_of-IsPresent t k l m in
    (λ h. old (before h), λ h. elim h [ inl s ↦ old (now s) | inr o ↦ new o ])
