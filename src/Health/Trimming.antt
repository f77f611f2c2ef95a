-- ===== src/Health/Trimming.antt =====
-- The users whom the next signals may bring below a factor of 1: users_trimming of compound.py, and the
-- searches by a threshold, find_hf_users, find_hf_users_index_by_seq and find_hf_users_index_by_binary.
use compound_liquidation.Prelude.{
  ℕ, zero, suc, ◌+◌, ◌-◌, ◌/◌, ◌%◌, String, Bool, not, ◌&&◌, ◌||◌, List, [], ◌∷◌, map, Result, ok,
  err, at_key, at_index, zero_division, length, ltb, ◌==◌, if◌then◌else◌, ◌>>=◌,
}
use compound_liquidation.Prelude.Int.{ℤ, pos, negsuc, ◌+ℤ◌, ltb_ℤ}
use compound_liquidation.Prelude.Sort.{sort_by}
use compound_liquidation.Prelude.Text.{str_lt}
use compound_liquidation.Prelude.Float.{Floats}
use compound_liquidation.Users.{HealthFactor, UserStates, States}

-- `round(s / 2)`, to the even neighbour
abbrev pub round_half : ℕ → ℕ
round_half s = if s % 2 == 0 then s / 2 else s / 2 + s / 2 % 2

module _ {F : Type 0} ⦃fl : Floats F⦄ where
  open fl use {of_int, decimal, add, sub, mul, div, floor_quot, fabs, lt, le, eq, int_lt}

  -- `hf_infos.value / HF_THRESHOLD - 1`, at the threshold 1
  unfoldable pub normalized : HealthFactor F → F
  normalized hf = sub (div hf.value (of_int (pos 1))) (of_int (pos 1))

  -- `last_update + min(abs(hf_norm) // intvl * intvl_time, 86400) > current_time`
  unfoldable pub is_fresh : HealthFactor F → F → ℤ → Bool
  is_fresh hf hf_norm current_time =
      let wait = mul (floor_quot (fabs hf_norm) (decimal (pos 1) 2)) (of_int (pos 120)) in
      if int_lt (pos 86400) wait
      then ltb_ℤ current_time (hf.last_update +ℤ pos 86400)
      else int_lt current_time (add (of_int hf.last_update) wait)

  -- `left > hf_norm > base`
  unfoldable pub in_signal_range : F → Bool
  in_signal_range hf_norm = lt hf_norm (decimal (pos 1) 1) && lt (of_int (pos 0)) hf_norm

  -- `hf_norm >= left or base >= hf_norm >= right or hf_norm == -1`
  unfoldable pub in_idle_range : F → Bool
  in_idle_range hf_norm =
      le (decimal (pos 1) 1) hf_norm
      || le hf_norm (of_int (pos 0)) && le (decimal (negsuc 0) 1) hf_norm
      || eq hf_norm (of_int (negsuc 0))

  unfoldable pub is_kept : Bool → HealthFactor F → ℤ → Bool
  unfolding normalized is_fresh in_signal_range in_idle_range
  is_kept is_signal hf current_time =
      let hf_norm = normalized hf in
      not (is_fresh hf hf_norm current_time)
      && (if is_signal then in_signal_range hf_norm else in_idle_range hf_norm)

  -- the loop, with the normalized factors beside the users
  unfoldable pub filtered : Bool → States F → ℤ → List String → Result (List (F × String))
  unfolding is_kept normalized
  filtered is_signal sta current_time [] = ok []
  filtered is_signal sta current_time (usr ∷ users) = do
    u ← at_key usr sta.users_states
    rest ← filtered is_signal sta current_time users
    ok (
        if is_kept is_signal (UserStates.health_factor u) current_time
        then (normalized (UserStates.health_factor u), usr) ∷ rest
        else rest)

  -- the order of the tuples
  unfoldable pub tuple_lt : F × String → F × String → Bool
  tuple_lt a b = if eq a.0 b.0 then str_lt a.1 b.1 else lt a.0 b.0

  unfoldable pub users_trimming : List String → States F → ℤ → Bool → Result (List String)
  unfolding filtered tuple_lt
  users_trimming users sta current_time is_signal = do
    data' ← filtered is_signal sta current_time users
    ok (map (λ d. d.1) (if is_signal then sort_by tuple_lt data' else data'))

  -- `calculate_health_factor_fake_inverse`, which divides by zero at a delta of -1
  unfoldable pub fake_inverse : F → F → Result F
  fake_inverse health_factor_after delta =
      let f_delta =
        if lt delta (of_int (pos 0))
        then add (of_int (pos 1)) delta
        else div (of_int (pos 1)) (add (of_int (pos 1)) delta) in
      if eq f_delta (of_int (pos 0))
      then err zero_division
      else ok (div health_factor_after f_delta)

  unfoldable pub value_of : States F → String → Result F
  value_of s usr = do u ← at_key usr s.users_states; ok (UserStates.health_factor u).value

  -- the loop, which stops after the first user above 1.01
  unfoldable pub below : States F → F → List String → Result (List String)
  unfolding value_of
  below s thres [] = ok []
  below s thres (usr ∷ users) = do
    hf ← value_of s usr
    rest ← (if lt (decimal (pos 101) 2) hf then ok [] else below s thres users)
    ok (if lt hf thres then usr ∷ rest else rest)

  pub find_hf_users : States F → List String → F → Result (List String)
  unfolding fake_inverse below
  find_hf_users s users delta_max = do
    thres ← fake_inverse (of_int (pos 1)) delta_max
    below s thres users

  -- the same loop, by index
  unfoldable pub below_from : States F → F → List String → (n i : ℕ) → Result (List String)
  unfolding value_of
  below_from s thres users zero i = ok []
  below_from s thres users (suc n) i = do
    usr ← at_index users i
    hf ← value_of s usr
    rest ← (if lt (decimal (pos 101) 2) hf then ok [] else below_from s thres users n (suc i))
    ok (if lt hf thres then usr ∷ rest else rest)

  pub find_hf_users_index_by_seq : States F → List String → F → Result (List String)
  unfolding fake_inverse below_from
  find_hf_users_index_by_seq s users delta_max = do
    thres ← fake_inverse (of_int (pos 1)) delta_max
    below_from s thres users (length users) 0

  unfoldable pub value_at : States F → List String → ℕ → Result F
  unfolding value_of
  value_at s users i = do usr ← at_index users i; value_of s usr

  -- the loop, on the number of steps left
  unfoldable pub narrow : States F → F → List String → (fuel left right : ℕ) → Result (ℕ × ℕ)
  unfolding value_at
  narrow s thres users zero left right = ok (left, right)
  narrow s thres users (suc fuel) left right =
      if ltb left (right - 1)
      then (do
        let index = round_half (left + right)
        hf ← value_at s users index
        let low = lt hf thres
        narrow s thres users fuel (if low then index else left) (if low then right else index))
      else ok (left, right)

  pub find_hf_users_index_by_binary : States F → List String → F → Result ℕ
  unfolding fake_inverse narrow value_at
  find_hf_users_index_by_binary s sorted_users delta_max = do
    thres ← fake_inverse (of_int (pos 1)) delta_max
    ends ← narrow s thres sorted_users (length sorted_users) 0 (length sorted_users - 1)
    hf_right ← value_at s sorted_users ends.1
    hf_left ← value_at s sorted_users ends.0
    ok (if lt hf_right thres then ends.1 + 1 else if lt thres hf_left then ends.0 else ends.0 + 1)
