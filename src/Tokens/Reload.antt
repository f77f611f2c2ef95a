-- ===== src/Tokens/Reload.antt =====
-- Writing the positions and the markets to the cache files and reading them again.
use compound_liquidation.Prelude.{◌≡◌, refl, ok}
use compound_liquidation.Prelude.Int.{pos}
use compound_liquidation.Tokens.{
  CompReserve, to_list, reserve_of_list, CtokenBalances, balances_to_dict, balances_of_dict,
  CtokenRiskParams, risks_to_dict, risks_of_dict,
}

-- A position survives the round trip.
pub reserve_of_list-to_list : (r : CompReserve) → reserve_of_list (to_list r) ≡ ok r
unfolding reserve_of_list to_list
reserve_of_list-to_list r = refl

-- The balances of a market keep their supply alone: the totals of reserves and borrows are written
-- under one key and read under another, and come back as zero.
pub balances_of_dict-to_dict :
    (b : CtokenBalances)
    → balances_of_dict (balances_to_dict b)
      ≡ record b { total_reserve = pos 0; total_borrow = pos 0 }
unfolding balances_of_dict balances_to_dict
balances_of_dict-to_dict b = refl

-- The risk parameters keep their borrow index alone.
pub risks_of_dict-to_dict :
    (r : CtokenRiskParams)
    → risks_of_dict (risks_to_dict r)
      ≡ record r { reserve_factor = pos 0; exchange_rate = pos 0; protocol_seized = pos 0 }
unfolding risks_of_dict risks_to_dict
risks_of_dict-to_dict r = refl
