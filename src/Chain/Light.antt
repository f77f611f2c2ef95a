-- ===== src/Chain/Light.antt =====
-- The light node's messages and the full node's, as logs: converter and converter_full of types_light.py.
use compound_liquidation.Prelude.{
  ℕ, String, false, Option, none, some, List, [], ◌∷◌, Result, ok, err, ◌>>=◌, value_error,
}
use compound_liquidation.Prelude.Int.{ℤ, pos}
use compound_liquidation.Prelude.Text.{slice_from, from_hex, int_hex}
use compound_liquidation.Chain.{Eth, LogReceipt}

pub record LogEventLight : Type 0 where
  pub address : String
  pub topics : List String
  pub tx_index : ℤ
  pub data_hex : String
  pub transaction_hash : String

pub record LogReceiptLight : Type 0 where
  pub block_hash : String
  pub block_number : ℤ
  -- `none` where the message has no events
  pub events : Option (List LogEventLight)

pub record LogReceiptFull : Type 0 where
  pub address : String
  pub block_hash : String
  pub block_number : String
  pub data_hex : String
  pub tx_index : String
  pub topics : List String
  pub transaction_hash : String

-- `bytes.fromhex(s[2:])`
unfoldable pub hex_bytes : String → Result (List ℕ)
hex_bytes s = found (from_hex (slice_from 2 s))
  where
    found : Option (List ℕ) → Result (List ℕ)
    found none = err value_error
    found (some bs) = ok bs

unfoldable pub topics_bytes : List String → Result (List (List ℕ))
unfolding hex_bytes
topics_bytes [] = ok []
topics_bytes (topic ∷ rest) = do bs ← hex_bytes topic; others ← topics_bytes rest; ok (bs ∷ others)

module _ (eth : Eth) where
  -- one event of a message
  unfoldable pub log_of : LogReceiptLight → LogEventLight → Result LogReceipt
  unfolding topics_bytes
  log_of dct v = do
    topics ← topics_bytes v.topics
    block_hash ← hex_bytes dct.block_hash
    transaction_hash ← hex_bytes v.transaction_hash
    ok (record {
      removed = false;
      address = Eth.to_checksum_address eth v.address;
      data_hex = v.data_hex;
      topics = topics;
      block_number = dct.block_number;
      block_hash = block_hash;
      transaction_index = v.tx_index;
      transaction_hash = transaction_hash;
    })

  unfoldable pub logs_of : LogReceiptLight → List LogEventLight → Result (List LogReceipt)
  unfolding log_of
  logs_of dct [] = ok []
  logs_of dct (v ∷ rest) = do log ← log_of dct v; logs ← logs_of dct rest; ok (log ∷ logs)

  unfoldable pub converter : LogReceiptLight → Result (List LogReceipt)
  unfolding logs_of
  converter dct = elim dct.events [ none ↦ ok [] | some events ↦ logs_of dct events ]

unfoldable pub converter_full : LogReceiptFull → Result LogReceiptLight
converter_full dct = do
  block_number ← int_hex dct.block_number
  tx_index ← int_hex dct.tx_index
  ok (record {
    block_hash = dct.block_hash;
    block_number = pos block_number;
    events = some (
        record {
          address = dct.address;
          topics = dct.topics;
          tx_index = pos tx_index;
          data_hex = dct.data_hex;
          transaction_hash = dct.transaction_hash;
        }
        ∷ []);
  })
