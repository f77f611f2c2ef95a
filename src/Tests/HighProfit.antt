-- ===== src/Tests/HighProfit.antt =====
-- The theorems on HighProfitSates at concrete inputs.
use compound_liquidation.Prelude.{◌^◌, ◌≡◌, refl, String, some, [], ◌∷◌, lookup}
use compound_liquidation.Prelude.Int.{pos}
use compound_liquidation.Prelude.Text.{from_hex, slice_from}
use compound_liquidation.Chain.{Eth, AbiValue, parse_event}
use compound_liquidation.Tokens.{CompReserve, new_reserve}
use compound_liquidation.Users.{States, UserStates, new_health_factor}
use compound_liquidation.Users.Access.{
  check_user_and_reserve, with_reserve, with_ctoken, borrow_index_of,
}
use compound_liquidation.Users.Handlers
use compound_liquidation.Users.Handlers.{on_borrow, on_parsed, on_event, set_debt, update_plug_in}
use compound_liquidation.Users.HighProfit.{
  HighProfitSates, apart, shared, own_reserves, update, parent_user, write_back_changed_states,
  write_back,
}
use compound_liquidation.Users.HighProfit.Merge.{combined, doubled}
use compound_liquidation.Users.HighProfit.Completed.{update-completed, update-doubled}
use compound_liquidation.Users.HighProfit.Parent.{write_back_changed_states-written, written}
use compound_liquidation.Samples.{
  Milli, milli_floats, market, log_sample, eth_sample, states_sample, reserve_sample,
}

-- every log is a borrow of 7 by dan, whose debt is 9 from then on
abbrev borrow_eth : Eth
borrow_eth = record eth_sample {
  hex = λ b. "0x13ed6866d4e1ee6da46f845c46d7e54120883d75c5ea9a2dacc1c4ca8984ab80";
  decode = λ types bs. some (
      AbiValue.address "0xdan"
      ∷ AbiValue.uint (pos 7)
      ∷ AbiValue.uint (pos 9)
      ∷ AbiValue.uint (pos 9)
      ∷ []);
}

-- dan of the full states
abbrev dan : UserStates Milli
dan = record {
  reserves = (market, reserve_sample) ∷ ("0xother", reserve_sample) ∷ [];
  health_factor = new_health_factor;
  vai_repay = pos 3;
}

abbrev high_sample : HighProfitSates Milli
high_sample = record {
  parent = ("0xdan", apart (own_reserves dan.reserves) dan.health_factor dan.vai_repay) ∷ [];
  debt_desired = pos 200;
  update_users = [];
}

abbrev borrowed : CompReserve
borrowed = record new_reserve { debt_amount = pos 9; debt_interest = pos (10 ^ 18) }

-- dan as the log makes him
abbrev new_dan : UserStates Milli
new_dan = record {
  reserves = (market, borrowed) ∷ [];
  health_factor = new_health_factor;
  vai_repay = pos 0;
}

update-completed_example :
    let h = (update borrow_eth log_sample (states_sample, high_sample)).1 in
    ((v : UserStates Milli) × (lookup "0xdan" (States.users_states h.0) ≡ some v)
      × ((key : String)
          → lookup key v.reserves
            ≡ combined (lookup key dan.reserves) (lookup key new_dan.reserves)))
    × (parent_user h "0xdan" ≡ some dan)
unfolding Handlers.update parse_event from_hex slice_from on_borrow check_user_and_reserve
    with_reserve borrow_index_of with_ctoken milli_floats
update-completed_example =
    update-completed borrow_eth log_sample states_sample
      (Handlers.update borrow_eth log_sample states_sample).1 high_sample "0xdan" new_dan dan refl
      refl refl ((refl, tt), (tt, tt))

-- a user of both, without a reserve of the market
abbrev shared_dan : UserStates Milli
shared_dan = record dan { reserves = ("0xother", reserve_sample) ∷ [] }

abbrev shared_states : States Milli
shared_states = record states_sample { users_states = ("0xdan", shared_dan) ∷ [] }

abbrev shared_high : HighProfitSates Milli
shared_high = record high_sample { parent = ("0xdan", shared) ∷ [] }

abbrev borrowing_dan : UserStates Milli
borrowing_dan = record dan { reserves = ("0xother", reserve_sample) ∷ (market, borrowed) ∷ [] }

update-doubled_example :
    let h = (update borrow_eth log_sample (shared_states, shared_high)).1 in
    (lookup "0xdan" (States.users_states h.0)
      ≡ some (record borrowing_dan { reserves = doubled borrowing_dan.reserves }))
    × (parent_user h "0xdan"
        ≡ some (record borrowing_dan { reserves = doubled borrowing_dan.reserves }))
unfolding Handlers.update parse_event from_hex slice_from on_borrow check_user_and_reserve
    with_reserve borrow_index_of with_ctoken milli_floats
update-doubled_example =
    update-doubled borrow_eth log_sample shared_states
      (Handlers.update borrow_eth log_sample shared_states).1 shared_high "0xdan" borrowing_dan refl
      refl refl ((refl, tt), (tt, tt))

abbrev changed_high : HighProfitSates Milli
changed_high = record high_sample { update_users = ("0xalice", pos 1) ∷ [] }

write_back_changed_states-written_example :
    parent_user (write_back_changed_states (states_sample, changed_high)).1 "0xalice"
    ≡ written (("0xalice", pos 1) ∷ []) (states_sample, changed_high) "0xalice"
unfolding write_back_changed_states write_back
write_back_changed_states-written_example =
    write_back_changed_states-written states_sample changed_high "0xalice" refl
