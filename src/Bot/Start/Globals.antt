-- ===== src/Bot/Start/Globals.antt =====
-- The globals that the start-up of compound.py makes of the completed states: the comptroller, the
-- signals, the head of the chain, the accounts, the sender and the pools.
use compound_liquidation.Prelude.{
  ℕ, zero, suc, ◌+◌, ◌^◌, String, false, Option, none, some, List, [], ◌∷◌, Result, ok, err,
  attribute_error, at_key, at_index, str_eq, if◌then◌else◌,
}
use compound_liquidation.Prelude.{◌>>=◌ as and_then}
use compound_liquidation.Prelude.Int.{ℤ, pos}
use compound_liquidation.Prelude.Text.{lower}
use compound_liquidation.Prelude.Float.{Floats}
use compound_liquidation.Block.{init_block_infos}
use compound_liquidation.Protocol.{init_comet_configs, coin_ctoken}
use compound_liquidation.Comet.{CometConfigs}
use compound_liquidation.Signals.{Signals, AggregatorInfos}
use compound_liquidation.Signals.Setup.{init_signals}
use compound_liquidation.Router.Setup.{init_router_pools}
use compound_liquidation.Users.{States, current_price}
use compound_liquidation.Send.{SendType, init_send_type}
use compound_liquidation.Send.Bnb48.{Bnb48}
use compound_liquidation.Bot.{World, Outside}
use compound_liquidation.Bot.Start.{Node}

-- `ROUTS_TOKENS`, on BSC
abbrev routs_tokens : List String
routs_tokens =
    "0xbb4CdB9CBd36B01bD1cBaEBF2De08d9173bc095c" ∷ "0xe9e7CEA3DedcA5984780Bafc599bD69ADd087D56"
    ∷ "0x55d398326f99059fF775485246999027B3197955" ∷ []

-- `init_accounts`: the nonces, from the account at a place on
unfoldable pub init_accounts :
    (transaction_count : ℕ → Result ℕ) → (place accounts : ℕ) → Result (List ℕ)
init_accounts transaction_count place zero = ok []
init_accounts transaction_count place (suc accounts) = and_then (transaction_count place) (λ nonce.
    and_then (init_accounts transaction_count (place + 1) accounts) (λ nonces. ok (nonce ∷ nonces)))

module _ {F : Type 0} ⦃fl : Floats F⦄ where
  -- the token and the decimals that give the price of the network's coin
  unfoldable pub price_send_type : Signals → Option (SendType F) → Result (SendType F)
  price_send_type signals none = err attribute_error
  price_send_type signals (some t) =
      if str_eq (SendType.aggr t) ""
      then ok t
      else and_then (at_key (lower (SendType.aggr t)) (Signals.signal_token_map signals)) (λ res.
        and_then (at_index res 0) (λ info. ok (record t {
          price_token = some (AggregatorInfos.token info);
          price_decimals = some (AggregatorInfos.price_decimals info);
        })))

  -- `BnB48Sender(w3, price)`
  unfoldable pub init_sender : Node F → Outside F → (price : ℤ) → Result (Bnb48 F)
  init_sender node out price = and_then (Outside.sender_nonce out) (λ nonce.
      and_then (Outside.sender_balance out) (λ balance.
        and_then (Node.bnb_gas_price node) (λ gas_price. ok (record {
          sender = record { lock = false; counter = 0 };
          bnb_price = Floats.div_int fl price (pos (10 ^ 18));
          storage = [];
          nonce = nonce;
          balance = balance;
          bnb_gas_price = gas_price;
        }))))

  -- the globals, before `HighProfitSates` is made
  abbrev pub first_world :
      States F → CometConfigs → Signals → (ℤ × ℤ × Option ℤ) → List ℕ → Bnb48 F → World F
  first_world states comet signals (number, timestamp, base_fee) nonces sender = record {
    states = states;
    high = record { parent = []; debt_desired = pos 0; update_users = [] };
    comet = comet;
    signals = signals;
    block_infos = init_block_infos number timestamp (elim base_fee [ none ↦ pos 0 | some b ↦ b ]);
    users_pre_filtered = [];
    users_continue = [];
    users_pending = [];
    desk = record { rout_tokens = routs_tokens; users_to_liquidate = []; nonces = nonces };
    sender = sender;
    signal_recv = none;
  }

  unfoldable pub init_globals :
      Node F → Outside F → (reserves : List String) → States F → Result (Outside F × World F)
  unfolding price_send_type init_accounts init_sender
  init_globals node out reserves states =
      and_then (init_comet_configs (Node.comptroller node) reserves states.last_update) (λ comet.
        and_then (init_signals (Node.sources node) reserves states.ctokens) (λ signals.
          and_then (Node.latest_block node) (λ block.
            and_then (init_accounts (Outside.transaction_count out) 0 (Node.accounts node))
              (λ nonces. and_then (current_price states.ctokens coin_ctoken) (λ price.
                and_then (init_sender node out price) (λ sender.
                  and_then (price_send_type signals (init_send_type "BSC")) (λ send_type.
                    let pools =
                      init_router_pools (Node.query_pool node) reserves states.ctokens [] in
                    and_then pools.0 (λ _. ok (
                      record out {
                        reserves_init = reserves;
                        pools = pools.1;
                        send_type = send_type;
                      },
                      first_world states comet signals block nonces sender,
                    )))))))))
