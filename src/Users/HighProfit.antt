-- ===== src/Users/HighProfit.antt =====
-- HighProfitSates of configs/users.py: the states of the users with enough debt, above the full states.
-- A user or a reserve of the two is often one object, and then a change of the one is a change of the
-- other. The two always hold it under the same keys, so the full states say per user and per reserve
-- whether the object is their own.
pub mod Kept
pub mod Once
pub mod Merge
pub mod Parent
pub mod Completed
use compound_liquidation.Prelude.{
  ℕ, String, Option, none, some, List, [], ◌∷◌, ◌++◌, Dict, lookup, insert, adjust, erase, keys,
  update_all, ok, err, key_error, attribute_error, if◌then◌else◌, length, drop, ◌==◌,
}
use compound_liquidation.Prelude.Int.{ℤ, pos, ◌+ℤ◌, ◌*ℤ◌, ltb_ℤ, eqb_ℤ}
use compound_liquidation.Prelude.Float.{Floats}
use compound_liquidation.Prelude.Exec.{Exec, pure, modify, ◌>>=◌, ◌>>◌}
use compound_liquidation.Chain.{Eth, LogReceipt}
use compound_liquidation.Tokens.{CompReserve}
use compound_liquidation.Users.{HealthFactor, UserStates, States}
use compound_liquidation.Users.Queries.{filter_states}
use compound_liquidation.Users.Handlers

-- a user of the full states: the object of the high-profit states, or another one, each reserve of
-- which is its own, or the object of the high-profit states
pub data Held (F : Type 0) : Type 0 where
  shared : Held F
  apart : Dict (Option CompReserve) → HealthFactor F → (vai_repay : ℤ) → Held F

-- the fields beside those of `States`
pub record HighProfitSates (F : Type 0) : Type 0 where
  pub parent : Dict (Held F)
  pub debt_desired : ℤ
  pub update_users : Dict ℤ

abbrev pub own_reserves : Dict CompReserve → Dict (Option CompReserve)
own_reserves [] = []
own_reserves ((key, r) ∷ d) = (key, some r) ∷ own_reserves d

-- the reserves of a user of the full states, for those of the user of the high-profit states, which
-- has every shared one
abbrev pub held_reserves : Dict CompReserve → Dict (Option CompReserve) → Dict CompReserve
held_reserves mine [] = []
held_reserves mine ((key, some r) ∷ d) = (key, r) ∷ held_reserves mine d
held_reserves mine ((key, none) ∷ d) = elim (lookup key mine) [
  | none ↦ held_reserves mine d
  | some r ↦ (key, r) ∷ held_reserves mine d
]

module _ {F : Type 0} where
  abbrev pub own_object : UserStates F → Held F
  own_object u = apart (own_reserves (UserStates.reserves u)) u.health_factor u.vai_repay

  -- the full states of the users, as they share their objects with `filter_states`
  abbrev pub held_from : Dict (UserStates F) → (profit_thres : ℤ) → Dict (Held F)
  held_from [] profit_thres = []
  held_from ((usr, u) ∷ users) profit_thres =
      (
        usr,
        if ltb_ℤ profit_thres (HealthFactor.debt_volume (UserStates.health_factor u))
            then shared
            else own_object u,
      )
      ∷ held_from users profit_thres

  -- `HighProfitSates(full_states, profit_thres)`
  unfoldable pub new_high_profit : States F → (profit_thres : ℤ) → States F × HighProfitSates F
  unfolding filter_states
  new_high_profit full_states profit_thres =
      let debt_desired = profit_thres *ℤ pos 20 in
      (
        record full_states { users_states = filter_states full_states.users_states debt_desired },
        record {
          parent = held_from full_states.users_states debt_desired;
          debt_desired = debt_desired;
          update_users = [];
        },
      )

  -- a user of the full states, as it can be read
  abbrev pub resolved : Option (UserStates F) → Held F → Option (UserStates F)
  resolved mine shared = mine
  resolved none (apart slots hf vai_repay) =
      some (record { reserves = held_reserves [] slots; health_factor = hf; vai_repay = vai_repay })
  resolved (some u) (apart slots hf vai_repay) = some (record {
    reserves = held_reserves (UserStates.reserves u) slots;
    health_factor = hf;
    vai_repay = vai_repay;
  })

  -- `self.parent.users_states.get(usr, None)`
  abbrev pub parent_user : States F × HighProfitSates F → String → Option (UserStates F)
  parent_user (own, high) usr = elim (lookup usr (HighProfitSates.parent high)) [
    | none ↦ none
    | some h ↦ resolved (lookup usr own.users_states) h
  ]

-- one reserve of the full states added to the one of the new user
abbrev pub merge_one : (value mine : CompReserve) → CompReserve
merge_one value mine = record mine {
  col_amount = mine.col_amount +ℤ value.col_amount;
  debt_amount = mine.debt_amount +ℤ value.debt_amount;
  debt_interest =
      if eqb_ℤ mine.debt_interest (pos 0) then value.debt_interest else mine.debt_interest;
}

-- the loop over the reserves where the two users are one object
unfoldable pub merge_shared : (names : List String) → Dict CompReserve → Dict CompReserve
merge_shared [] mine = mine
merge_shared (key ∷ names) mine = merge_shared names (adjust key (λ r. merge_one r r) mine)

-- one reserve of the full states: a reserve that the new user has not is shared from then on
unfoldable pub merge_slot :
    (key : String) → Option CompReserve → Dict CompReserve → Option CompReserve × Dict CompReserve
merge_slot key none mine = (none, adjust key (λ r. merge_one r r) mine)
merge_slot key (some value) mine = elim (lookup key mine) [
  | none ↦ (none, insert key value mine)
  | some r ↦ (some value, adjust key (merge_one value) mine)
]

-- the loop where they are two objects
unfoldable pub merge_apart :
    Dict (Option CompReserve) → Dict CompReserve → Dict (Option CompReserve) × Dict CompReserve
unfolding merge_slot
merge_apart [] mine = ([], mine)
merge_apart ((key, slot) ∷ slots) mine =
    let (slot', mine') = merge_slot key slot mine in
    let (slots', mine'') = merge_apart slots mine' in ((key, slot') ∷ slots', mine'')

module _ {F : Type 0} where
  abbrev pub set_reserves : Dict CompReserve → UserStates F → UserStates F
  set_reserves reserves u = record u { reserves = reserves }

  -- a user whom the update has made, or has given a new reserve
  unfoldable pub merge_user :
      (usr : String) → UserStates F → States F × HighProfitSates F → States F × HighProfitSates F
  unfolding merge_shared merge_apart
  merge_user usr u (own, high) = elim (lookup usr (HighProfitSates.parent high)) [
    | none ↦ (own, high)
    | some h ↦ elim h [
      | shared ↦ (
        record own {
          users_states =
              adjust usr
                (set_reserves (merge_shared (keys (UserStates.reserves u)) (UserStates.reserves u)))
                own.users_states;
        },
        high,
      )
      | apart slots hf vai_repay ↦
          let (slots', mine) = merge_apart slots (UserStates.reserves u) in
          (
            record own { users_states = adjust usr (set_reserves mine) own.users_states },
            record high {
              parent = adjust usr (λ _. apart slots' hf vai_repay) (HighProfitSates.parent high);
            },
          )
    ]
  ]

  -- the users of the update, where the type of the change is 2: each is there then
  unfoldable pub merge_users :
      (new_updated_users : Dict ℤ) → Exec (States F × HighProfitSates F) (Unit {0})
  unfolding merge_user
  merge_users [] h = (ok tt, h)
  merge_users ((usr, type) ∷ users) h =
      if eqb_ℤ type (pos 2)
      then elim (lookup usr (States.users_states h.0)) [
        | none ↦ (err key_error, h)
        | some u ↦ merge_users users (merge_user usr u h)
      ]
      else merge_users users h

  -- a method of `States`
  abbrev pub super : {A : Type 0} → Exec (States F) A → Exec (States F × HighProfitSates F) A
  super m (own, high) = let (r, own') = m own in (r, (own', high))

  abbrev pub note_users : Dict ℤ → States F × HighProfitSates F → States F × HighProfitSates F
  note_users users (own, high) =
      (own, record high { update_users = update_all (HighProfitSates.update_users high) users })

module _ {F : Type 0} ⦃fl : Floats F⦄ where
  -- `HighProfitSates.update`
  unfoldable pub update : Eth → LogReceipt → Exec (States F × HighProfitSates F) (Dict ℤ)
  unfolding merge_users
  update eth log = do
    new_updated_users ← super (Handlers.update eth log)
    merge_users new_updated_users
    modify (note_users new_updated_users)
    pure new_updated_users

module _ {F : Type 0} where
  abbrev pub set_held :
      String → Held F → States F × HighProfitSates F → States F × HighProfitSates F
  set_held usr held (own, high) =
      (own, record high { parent = insert usr held (HighProfitSates.parent high) })

  -- `self.parent.users_states[usr] = self.users_states[usr]`, for every user
  unfoldable pub write_back : List String → Exec (States F × HighProfitSates F) (Unit {0})
  write_back [] h = (ok tt, h)
  write_back (usr ∷ users) h = elim (lookup usr (States.users_states h.0)) [
    | none ↦ (err key_error, h)
    | some u ↦ write_back users (set_held usr shared h)
  ]

  unfoldable pub write_back_changed_states : Exec (States F × HighProfitSates F) (Unit {0})
  unfolding write_back
  write_back_changed_states (own, high) =
      write_back (keys (HighProfitSates.update_users high)) (own, high)

  -- the full states' user holds its own objects from then on
  abbrev pub detach : String → UserStates F → Held F → Held F
  detach usr u shared = own_object u
  detach usr u (apart slots hf vai_repay) =
      apart (own_reserves (held_reserves (UserStates.reserves u) slots)) hf vai_repay

  unfoldable pub eliminate_lowprof_states :
      String → Exec (States F × HighProfitSates F) (Option (UserStates F))
  eliminate_lowprof_states usr (own, high) = elim (lookup usr own.users_states) [
    | none ↦ (err key_error, (own, high))
    | some u ↦
        if ltb_ℤ (HealthFactor.debt_volume (UserStates.health_factor u)) high.debt_desired
        then (
          ok (some u),
          (
            record own { users_states = erase usr own.users_states },
            record high { parent = adjust usr (detach usr u) high.parent },
          ),
        )
        else (ok none, (own, high))
  ]

  unfoldable pub write_back_lowprof_states : String → Exec (States F × HighProfitSates F) (Unit {0})
  unfolding eliminate_lowprof_states
  write_back_lowprof_states usr = do
    state ← eliminate_lowprof_states usr
    modify (λ h. elim state [ none ↦ h | some u ↦ set_held usr (own_object u) h ])

-- `FIFOStates`, on elements of any class
pub record FifoStates (A : Type 0) : Type 0 where
  pub max_length : ℕ
  pub cache : List A

-- `deque.append` drops the first element where the deque is full; the class has no `array`
unfoldable pub push : {A : Type 0} → A → Exec (FifoStates A) (Unit {0})
push element f = (
  err attribute_error,
  record f {
    cache =
        if f.max_length == 0
        then []
        else if length f.cache == f.max_length
        then drop 1 f.cache ++ element ∷ []
        else f.cache ++ element ∷ [];
  },
)
