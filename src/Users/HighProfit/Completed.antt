-- ===== src/Users/HighProfit/Completed.antt =====
-- About the user of one log whom HighProfitSates.update of configs/users.py takes from the full states.
use compound_liquidation.Prelude.{
  String, Option, some, Dict, [], ◌∷◌, lookup, insert, adjust, keys, refl, ◌∙◌, ◌≡◌, ok, eq_refl,
  lookup-adjust,
}
use compound_liquidation.Prelude.Int.{ℤ, pos}
use compound_liquidation.Prelude.Float.{Floats}
use compound_liquidation.Prelude.Distinct.{IsDistinct}
use compound_liquidation.Chain.{Eth, LogReceipt}
use compound_liquidation.Tokens.{CompReserve}
use compound_liquidation.Users.{States, UserStates, HealthFactor}
use compound_liquidation.Users.Handlers
use compound_liquidation.Users.HighProfit.{
  HighProfitSates, Held, shared, apart, own_reserves, merge_apart, merge_shared, merge_user,
  set_reserves, merge_users, note_users, parent_user, resolved, update,
}
use compound_liquidation.Users.HighProfit.Merge.{
  combined, lookup-merge_apart, held-merge_apart, doubled, merge_shared-doubled,
}

module _ {F : Type 0} ⦃fl : Floats F⦄ where
  -- the update of one user of the second type
  update-one :
      (eth : Eth) (log : LogReceipt) (own own' : States F) (high : HighProfitSates F) (usr : String)
      (u : UserStates F)
      → Handlers.update eth log own ≡ (ok ((usr, pos 2) ∷ []), own')
      → lookup usr own'.users_states ≡ some u
      → update eth log (own, high)
        ≡ (ok ((usr, pos 2) ∷ []), note_users ((usr, pos 2) ∷ []) (merge_user usr u (own', high)))
  unfolding update merge_users
  update-one eth log own own' high usr u e found = rw (e, found) refl

  abbrev completed : String → Dict CompReserve → States F → States F
  completed usr reserves own = record own {
    users_states = adjust usr (set_reserves reserves) own.users_states;
  }

  user-apart :
      (own : States F) (high : HighProfitSates F) (usr : String) (u : UserStates F)
      (slots : Dict (Option CompReserve)) (hf : HealthFactor F) (vai_repay : ℤ)
      → lookup usr high.parent ≡ some (apart slots hf vai_repay)
      → let (slots', mine) = merge_apart slots u.reserves in
        merge_user usr u (own, high) ≡ (
          completed usr mine own,
          record high { parent = adjust usr (λ _. apart slots' hf vai_repay) high.parent },
        )
  unfolding merge_user
  user-apart own high usr u slots hf vai_repay kept = rw (kept, merge_user) refl

  user-shared :
      (own : States F) (high : HighProfitSates F) (usr : String) (u : UserStates F)
      → lookup usr high.parent ≡ some shared
      → merge_user usr u (own, high)
        ≡ (completed usr (merge_shared (keys u.reserves) u.reserves) own, high)
  unfolding merge_user
  user-shared own high usr u kept = rw (kept, merge_user) refl

  lookup-completed :
      (usr : String) (reserves : Dict CompReserve) (own : States F) (u : UserStates F)
      → lookup usr own.users_states ≡ some u
      → lookup usr (States.users_states (completed usr reserves own))
        ≡ some (record u { reserves = reserves })
  lookup-completed usr reserves own u found =
      rw (lookup-adjust usr usr (set_reserves reserves) own.users_states, eq_refl usr, found) refl

  parent-found :
      (own : States F) (high : HighProfitSates F) (usr : String) (u : UserStates F) (held : Held F)
      → lookup usr high.parent ≡ some held
      → lookup usr own.users_states ≡ some u
      → parent_user (own, high) usr ≡ resolved (some u) held
  parent-found own high usr u held e found = rw (e, found, parent_user) refl

  -- Where the log changes one user, who is new to the high-profit states or has a new reserve
  -- there, and whom the full states hold as another object with its own reserves, under distinct
  -- keys: HighProfitSates.update leaves that user with the sum of the two sides in every reserve,
  -- the one side's reserve where the other has none, and the full states' user reads as before.
  pub update-completed :
      (eth : Eth) (log : LogReceipt) (own own' : States F) (high : HighProfitSates F) (usr : String)
      (u old : UserStates F)
      → Handlers.update eth log own ≡ (ok ((usr, pos 2) ∷ []), own')
      → lookup usr own'.users_states ≡ some u
      → lookup usr high.parent
        ≡ some (apart (own_reserves old.reserves) old.health_factor old.vai_repay)
      → IsDistinct (keys old.reserves)
      → let h = (update eth log (own, high)).1 in
        ((v : UserStates F) × (lookup usr (States.users_states h.0) ≡ some v)
          × ((key : String)
              → lookup key v.reserves ≡ combined (lookup key old.reserves) (lookup key u.reserves)))
        × (parent_user h usr ≡ some old)
  update-completed eth log own own' high usr u old e found kept distinct =
      let slots = own_reserves old.reserves in
      let (slots', mine) = merge_apart slots u.reserves in
      let mine_found = lookup-completed usr mine own' u found in
      rw
        (
          update-one eth log own own' high usr u e found,
          user-apart own' high usr u slots old.health_factor old.vai_repay kept,
        )
        (
          (
            record u { reserves = mine },
            mine_found,
            λ key. lookup-merge_apart key old.reserves u.reserves distinct,
          ),
          parent-found (completed usr mine own')
                (record high {
                  parent =
                      adjust usr (λ _. apart slots' old.health_factor old.vai_repay) high.parent;
                  update_users = insert usr (pos 2) high.update_users;
                })
                usr (record u { reserves = mine }) (apart slots' old.health_factor old.vai_repay)
                (rw
                  (
                    lookup-adjust usr usr (λ _. apart slots' old.health_factor old.vai_repay)
                        high.parent,
                    eq_refl usr,
                    kept,
                  )
                  refl)
                mine_found
              ∙ (rw (held-merge_apart old.reserves u.reserves distinct) refl),
        )

  -- Where the log changes one user, who has a new reserve, and whom the full states and the high-
  -- profit states share as one object, with distinct keys: HighProfitSates.update adds the user's
  -- reserves to themselves, so that both read every balance and every debt of the user twice as
  -- large as States.update left it.
  pub update-doubled :
      (eth : Eth) (log : LogReceipt) (own own' : States F) (high : HighProfitSates F) (usr : String)
      (u : UserStates F)
      → Handlers.update eth log own ≡ (ok ((usr, pos 2) ∷ []), own')
      → lookup usr own'.users_states ≡ some u
      → lookup usr high.parent ≡ some shared
      → IsDistinct (keys u.reserves)
      → let h = (update eth log (own, high)).1 in
        (lookup usr (States.users_states h.0) ≡ some (record u { reserves = doubled u.reserves }))
        × (parent_user h usr ≡ some (record u { reserves = doubled u.reserves }))
  update-doubled eth log own own' high usr u e found kept distinct =
      rw
        (
          update-one eth log own own' high usr u e found,
          user-shared own' high usr u kept,
          merge_shared-doubled u.reserves distinct,
        )
        (
          lookup-completed usr (doubled u.reserves) own' u found,
          parent-found (completed usr (doubled u.reserves) own')
              (record high { update_users = insert usr (pos 2) high.update_users }) usr
              (record u { reserves = doubled u.reserves }) shared kept
              (lookup-completed usr (doubled u.reserves) own' u found),
        )
