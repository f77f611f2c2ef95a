-- ===== src/Users/Once.antt =====
-- About the keys of the users: each stands once, through States.update of configs/users.py.
use mathlib.Core.Path.{subst}
use compound_liquidation.Prelude.{
  String, sym, ap, keys, keys-adjust, lookup, adjust, Option-cases, inl, inr, Dict,
}
use compound_liquidation.Prelude.Float.{Floats}
use compound_liquidation.Prelude.Keeps.{Keeps}
use compound_liquidation.Prelude.Preserves.{Preserves}
use compound_liquidation.Prelude.Distinct.{IsDistinct, insert-IsDistinct}
use compound_liquidation.Tokens.{CompReserve, CtokenInfos}
use compound_liquidation.Chain.{Eth, LogReceipt}
use compound_liquidation.Users.{States, UserStates}
use compound_liquidation.Users.Access.{with_reserve, with_ctoken, check_user_and_reserve}
use compound_liquidation.Users.Handlers.{update}
use compound_liquidation.Users.Block.{block-with_ctoken}
use compound_liquidation.Users.Stable.{update-Preserves}

module _ {F : Type 0} where
  -- no user stands twice
  abbrev pub HasOnce : States F → Type 0
  HasOnce s = IsDistinct (keys s.users_states)

  adjust-HasOnce :
      (user : String) (f : UserStates F → UserStates F) (d : Dict (UserStates F))
      → IsDistinct (keys d)
      → IsDistinct (keys (adjust user f d))
  adjust-HasOnce user f d h = subst IsDistinct (sym (keys-adjust user f d)) h

module _ {F : Type 0} ⦃fl : Floats F⦄ where
  once-check :
      (user reserve : String) → Preserves (HasOnce {F = F}) (check_user_and_reserve user reserve)
  unfolding check_user_and_reserve
  once-check user reserve = record {
    at = λ s h. elim (Option-cases (lookup user s.users_states)) [
      | inl e ↦ rw (e, check_user_and_reserve) (insert-IsDistinct user _ s.users_states h)
      | inr (u, e) ↦ elim (Option-cases (lookup reserve (UserStates.reserves u))) [
        | inl e' ↦ rw (e, check_user_and_reserve, e') (adjust-HasOnce user _ s.users_states h)
        | inr (r, e') ↦ rw (e, check_user_and_reserve, e') h
      ]
    ];
  }

  once-with_reserve :
      (user reserve : String) (f : CompReserve → CompReserve)
      → Preserves (HasOnce {F = F}) (with_reserve user reserve f)
  unfolding with_reserve
  once-with_reserve user reserve f = record {
    at = λ s h. elim (Option-cases (lookup user s.users_states)) [
      | inl e ↦ rw (e, with_reserve) h
      | inr (u, e) ↦ elim (Option-cases (lookup reserve (UserStates.reserves u))) [
        | inl e' ↦ rw (e, with_reserve, e') h
        | inr (r, e') ↦ rw (e, with_reserve, e') (adjust-HasOnce user _ s.users_states h)
      ]
    ];
  }

  once-with_ctoken :
      (reserve : String) (f : CtokenInfos → CtokenInfos)
      → Preserves (HasOnce {F = F}) (with_ctoken reserve f)
  once-with_ctoken reserve f = record {
    at = λ s h. subst IsDistinct (sym (ap (λ b. b.1) (Keeps.at (block-with_ctoken reserve f) s))) h;
  }

  pub once-update : (eth : Eth) (log : LogReceipt) → Preserves (HasOnce {F = F}) (update eth log)
  once-update eth log =
      update-Preserves HasOnce
        (record {
          check = once-check;
          at_reserve = once-with_reserve;
          at_market = once-with_ctoken;
          at_plug_in = λ plug_in s h. h;
        })
        eth log
