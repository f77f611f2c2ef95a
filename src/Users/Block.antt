-- ===== src/Users/Block.antt =====
-- About the block of the last update and States.update of configs/users.py, and what keeps it together
-- with the keys of the users.
use compound_liquidation.Prelude.{String, List, ◌≡◌, refl, ap, ◌∙◌, keys, arith}
use compound_liquidation.Prelude.Int.{ℤ}
use compound_liquidation.Prelude.Float.{Floats}
use compound_liquidation.Prelude.Keeps.{Keeps}
use compound_liquidation.Prelude.Preserves.{Preserves}
use compound_liquidation.Tokens.{CompReserve, CtokenInfos}
use compound_liquidation.Chain.{Eth, LogReceipt}
use compound_liquidation.Users.{States}
use compound_liquidation.Users.Access.{with_reserve, with_ctoken, check_user_and_reserve}
use compound_liquidation.Users.Handlers.{update}
use compound_liquidation.Users.Stable.{IsStable, update-Preserves}

module _ {F : Type 0} where
  -- the block of the last update, and the users
  abbrev pub block_of : States F → ℤ × List String
  block_of s = (s.last_update, keys s.users_states)

  pub block-with_ctoken :
      (reserve : String) (f : CtokenInfos → CtokenInfos) → Keeps block_of (with_ctoken reserve f)
  unfolding with_ctoken
  block-with_ctoken reserve f = record { at = λ s. ground arith }

module _ {F : Type 0} ⦃fl : Floats F⦄ where
  abbrev IsAt : ℤ → States F → Type 0
  IsAt n s = s.last_update ≡ n

  block-check :
      (n : ℤ) (user reserve : String) → Preserves (IsAt n) (check_user_and_reserve user reserve)
  unfolding check_user_and_reserve
  block-check n user reserve = record { at = λ s h. ground (arith, h) }

  block-with_reserve :
      (n : ℤ) (user reserve : String) (f : CompReserve → CompReserve)
      → Preserves (IsAt n) (with_reserve user reserve f)
  unfolding with_reserve
  block-with_reserve n user reserve f = record { at = λ s h. ground (arith, h) }

  block-market :
      (n : ℤ) (reserve : String) (f : CtokenInfos → CtokenInfos)
      → Preserves (IsAt n) (with_ctoken reserve f)
  block-market n reserve f = record {
    at = λ s h. ap (λ b. b.0) (Keeps.at (block-with_ctoken reserve f) s) ∙ h;
  }

  IsAt-IsStable : (n : ℤ) → IsStable (IsAt n)
  IsAt-IsStable n = record {
    check = block-check n;
    at_reserve = block-with_reserve n;
    at_market = block-market n;
    at_plug_in = λ plug_in s h. h;
  }

  -- An event of a log leaves the block of the last update to the caller.
  pub block-update :
      (eth : Eth) (log : LogReceipt) → Keeps (λ (s : States F). s.last_update) (update eth log)
  block-update eth log = record {
    at = λ s.
        Preserves.at (update-Preserves (IsAt s.last_update) (IsAt-IsStable s.last_update) eth log) s
          refl;
  }
