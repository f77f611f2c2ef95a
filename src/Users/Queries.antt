-- ===== src/Users/Queries.antt =====
-- The methods of `States` in configs/users.py that ask for users, and those that remove some:
-- users_filtering, get_users_sampling, filter_states, trim and trim_ctokens.
use compound_liquidation.Prelude.{
  ℕ, ◌+◌, ◌-◌, ◌*◌, ◌/◌, ◌%◌, String, Bool, true, false, none, some, List, [], ◌∷◌, Dict, lookup,
  erase, keys, ◌&&◌, Result, ok, err, zero_division, length, take, drop, ltb, ◌==◌, if◌then◌else◌,
}
use compound_liquidation.Prelude.Int.{ℤ, pos, eqb_ℤ, ltb_ℤ}
use compound_liquidation.Tokens.{CompReserve}
use compound_liquidation.Users.{UserStates, States}

-- `any` reserve of the list, with the `break` at the first
unfoldable pub has_any : {F : Type 0} → UserStates F → List String → Bool
has_any u [] = false
has_any u (token_addr ∷ rest) = elim (lookup token_addr (UserStates.reserves u)) [
  | none ↦ has_any u rest
  | some r ↦ true
]

unfoldable pub filtering : {F : Type 0} → Dict (UserStates F) → List String → List String
unfolding has_any
filtering [] tokens_addr = []
filtering ((usr, u) ∷ d) tokens_addr =
    let rest = filtering d tokens_addr in if has_any u tokens_addr then usr ∷ rest else rest

unfoldable pub users_filtering : {F : Type 0} → States F → List String → List String
unfolding filtering
users_filtering s tokens_addr = filtering s.users_states tokens_addr

-- `math.ceil(l / intervals)`, exact for fewer than 2^53 users
abbrev pub ceil_div : ℕ → ℕ → ℕ
ceil_div l intervals = (l + intervals - 1) / intervals

-- `array[left:right]`
unfoldable pub sampling : {A : Type 0} → List A → ℕ → ℕ → Result (List A)
sampling array index intervals =
    let l = length array in
    let size = ceil_div l intervals in
    let left = if ltb l (size * index) then size * index % l else size * index in
    let right = if ltb l (left + size) then l else left + size in
    if intervals == 0 then err zero_division else ok (take (right - left) (drop left array))

pub get_users_sampling : {F : Type 0} → States F → ℕ → ℕ → Result (List String)
unfolding sampling
get_users_sampling s index intervals = sampling (keys s.users_states) index intervals

unfoldable pub is_empty : CompReserve → Bool
is_empty r = eqb_ℤ r.col_amount (pos 0) && eqb_ℤ r.debt_amount (pos 0)

-- the reserves that `trim` keeps
unfoldable pub trim_reserves : Dict CompReserve → Dict CompReserve
unfolding is_empty
trim_reserves [] = []
trim_reserves ((reserve, r) ∷ d) =
    let rest = trim_reserves d in if is_empty r then rest else (reserve, r) ∷ rest

unfoldable pub trim_users : {F : Type 0} → Dict (UserStates F) → Dict (UserStates F)
unfolding trim_reserves
trim_users [] = []
trim_users ((user, u) ∷ d) = (user, record u { reserves = trim_reserves u.reserves }) ∷ trim_users d

-- The test `not self.users_states[user]` asks an object that is never false, so no user goes.
unfoldable pub trim : {F : Type 0} → States F → States F
unfolding trim_users
trim s = record s { users_states = trim_users s.users_states }

-- `trim_ctokens`, over the markets that stand among the users
erase_all : {F : Type 0} → Dict (UserStates F) → List String → Dict (UserStates F)
erase_all d [] = d
erase_all d (fake_user ∷ rest) = erase_all (erase fake_user d) rest

pub trim_ctokens : {F : Type 0} → States F → List String → States F
unfolding erase_all
trim_ctokens s all_ctokens = record s { users_states = erase_all s.users_states all_ctokens }

-- `filter_states`: the users with more debt than the threshold
unfoldable pub filter_states : {F : Type 0} → Dict (UserStates F) → ℤ → Dict (UserStates F)
filter_states [] profit_thres = []
filter_states ((usr, u) ∷ d) profit_thres =
    let rest = filter_states d profit_thres in
    if ltb_ℤ profit_thres u.health_factor.debt_volume then (usr, u) ∷ rest else rest
