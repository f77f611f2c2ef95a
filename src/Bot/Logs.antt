-- ===== src/Bot/Logs.antt =====
-- The users after a message of logs: users_subscribe_callback of compound.py, whose last part keeps the
-- lists of users near liquidation, and vai_repay_subscribe_callback.
use compound_liquidation.Prelude.{
  ℕ, zero, suc, String, Bool, true, false, Option, none, some, List, [], ◌∷◌, Dict, lookup, insert,
  adjust, keys, update_all, Result, ok, at_key, str_eq, if◌then◌else◌,
}
use compound_liquidation.Prelude.Int.{ℤ, pos, ◌+ℤ◌, ltb_ℤ}
use compound_liquidation.Prelude.Float.{Floats}
use compound_liquidation.Prelude.{◌>>=◌ as and_then}
use compound_liquidation.Prelude.Exec.{Exec, pure, lift, modify, each, ◌>>=◌, ◌>>◌}
use compound_liquidation.Chain.{LogReceipt}
use compound_liquidation.Chain.Light.{LogReceiptLight, LogReceiptFull, converter, converter_full}
use compound_liquidation.Events.{State, vai_update}
use compound_liquidation.Users.{UserStates, States}
use compound_liquidation.Health.{write_health_factor}
use compound_liquidation.Health.Trimming.{value_of}
use compound_liquidation.Sync.{reload_and_extend_states}
use compound_liquidation.Bot.{
  World, Outside, on_states, on_high, reads, updates, health_of, users_trimming_wrap,
}

-- `l.insert(i, x)`
unfoldable pub insert_at {ℓ} : {A : Type ℓ} → ℕ → A → List A → List A
insert_at zero x l = x ∷ l
insert_at (suc i) x [] = x ∷ []
insert_at (suc i) x (y ∷ l) = y ∷ insert_at i x l

-- `usr in users`
unfoldable pub is_listed : String → List String → Bool
is_listed usr [] = false
is_listed usr (u ∷ us) = if str_eq u usr then true else is_listed usr us

module _ {F : Type 0} ⦃fl : Floats F⦄ where
  -- the place of the first user with a larger factor, from the place `i`; 0 where there is none
  unfoldable pub place_of : States F → F → (i : ℕ) → List String → Result ℕ
  place_of s hf i [] = ok 0
  place_of s hf i (usr ∷ users) =
      and_then (value_of s usr)
        (λ hf_compare. if Floats.lt fl hf hf_compare then ok i else place_of s hf (suc i) users)

  -- the list of one aggregator takes the user, once
  unfoldable pub add_listed :
      (usr : String)
      → F
      → (aggr : String) → (users_pre_filt : List String) → Exec (World F) (Unit {0})
  unfolding is_listed insert_at
  add_listed usr hf aggr users_pre_filt = if is_listed usr users_pre_filt then pure tt else (do
    index ← reads (λ v. place_of v.states hf 0 users_pre_filt)
    modify λ v. record v {
      users_pre_filtered = insert aggr (insert_at index usr users_pre_filt) v.users_pre_filtered;
    })

  unfoldable pub add_for : (usr : String) → F → (aggr : Option String) → Exec (World F) (Unit {0})
  unfolding add_listed
  add_for usr hf none = pure tt
  add_for usr hf (some aggr) = do
    users_pre_filt ← reads (λ v. at_key aggr v.users_pre_filtered)
    add_listed usr hf aggr users_pre_filt

  -- one market of a user, where an aggregator prices it
  unfoldable pub add_to : (usr : String) → F → (ctoken_addr : String) → Exec (World F) (Unit {0})
  unfolding add_for
  add_to usr hf ctoken_addr = do
    aggr ← reads (λ w. ok (lookup ctoken_addr w.signals.token_signal_map))
    add_for usr hf aggr

  unfoldable pub add_user : String → Exec (World F) (Unit {0})
  unfolding add_to
  add_user usr = do
    hf ← reads (λ w. value_of w.states usr)
    u ← reads (λ w. at_key usr w.states.users_states)
    each (add_to usr hf) (keys (UserStates.reserves u))

  -- the VAI debt of a user that is known
  unfoldable pub set_vai_repay : Outside F → String → Exec (World F) (Unit {0})
  set_vai_repay out usr = do
    vai_repay ← lift (Outside.query_user_vai_repay out usr)
    on_states (
        modify λ s. record s {
          users_states = adjust usr (λ u. record u { vai_repay = vai_repay }) s.users_states;
        })

  -- `states.plug_in.storage.clear()`
  unfoldable pub clear_plug_in : States F → States F
  clear_plug_in s = elim (States.plug_in s) [
    | none ↦ s
    | some q ↦ record s { plug_in = some (record q { storage = [] }) }
  ]

  unfoldable pub sync_users : Outside F → Option (State ℤ) → Exec (World F) (Unit {0})
  unfolding set_vai_repay clear_plug_in
  sync_users out none = pure tt
  sync_users out (some p) = do
    each (set_vai_repay out) (keys (State.storage p))
    on_states (modify clear_plug_in)

  -- the last part: the users that the plug-in noted, which it then forgets
  unfoldable pub sync_plug_in : Outside F → Exec (World F) (Unit {0})
  unfolding sync_users
  sync_plug_in out = do plug_in ← reads (λ w. ok (States.plug_in w.states)); sync_users out plug_in

  -- the health factors of the users that changed, and the lists of users near liquidation
  unfoldable pub recalculate : (now : ℤ) → (users_lst : List String) → Exec (World F) (Unit {0})
  unfolding add_user
  recalculate now users_lst = do
    results ← reads (health_of now users_lst)
    users_target ← reads (users_trimming_wrap users_lst (now +ℤ pos 86400) false)
    on_states (write_health_factor results)
    users_filtered ← reads (users_trimming_wrap users_target (now +ℤ pos 86400) true)
    each add_user users_filtered

  abbrev pub reload_user : Outside F → String → Exec (World F) (Unit {0})
  reload_user out usr =
      on_states (reload_and_extend_states (Outside.get_assets_in out) (Outside.eth out) usr)

  -- a message that is not out of date
  unfoldable pub take_logs :
      Outside F → (now : ℤ) → LogReceiptLight → List LogReceipt → Exec (World F) (Unit {0})
  unfolding recalculate sync_plug_in
  take_logs out now response logs = do
    users ← on_high (updates (Outside.eth out) [] logs)
    on_states (
        modify λ s. record s {
          last_update = LogReceiptLight.block_number response;
          block_hash = LogReceiptLight.block_hash response;
        })
    each (reload_user out) (keys users)
    recalculate now (keys users)
    sync_plug_in out

  unfoldable pub users_subscribe_callback :
      Outside F → (now : ℤ) → LogReceiptLight → Exec (World F) (Unit {0})
  unfolding take_logs
  users_subscribe_callback out now response = do
    logs ← lift (converter (Outside.eth out) response)
    old ← reads (λ w. ok (ltb_ℤ (LogReceiptLight.block_number response) w.states.last_update))
    if old then pure tt else take_logs out now response logs

  -- the users that the logs change, without a change of the plug-in
  unfoldable pub vai_users : Outside F → State ℤ → Dict ℤ → List LogReceipt → Result (Dict ℤ)
  vai_users out plug_in res [] = ok res
  vai_users out plug_in res (log ∷ logs) =
      and_then (vai_update (Outside.eth out) plug_in log)
        (λ temp. vai_users out plug_in (update_all res temp) logs)

  -- `vai_repay_subscribe_callback`, for the plug-in `event_vai_repay`
  unfoldable pub vai_repay_subscribe_callback :
      Outside F → State ℤ → LogReceiptLight → Exec (World F) (Unit {0})
  unfolding vai_users set_vai_repay
  vai_repay_subscribe_callback out event_vai_repay response = do
    logs ← lift (converter (Outside.eth out) response)
    res ← lift (vai_users out event_vai_repay [] logs)
    each (set_vai_repay out) (keys res)

  -- `users_subscribe_callback_full`, for a message with a log or without one
  unfoldable pub users_subscribe_callback_full :
      Outside F → (now : ℤ) → Option LogReceiptFull → Exec (World F) (Unit {0})
  unfolding users_subscribe_callback
  users_subscribe_callback_full out now none = pure tt
  users_subscribe_callback_full out now (some result) = do
    response ← lift (converter_full result)
    users_subscribe_callback out now response
