-- ===== src/Chain.antt =====
-- Logs of the chain: types_light.py, and the part that every event handler shares, which looks the
-- first topic up in a table of events and decodes the data.
-- The libraries hexbytes, eth_abi and web3 are the record `Eth`, an argument of what calls them.
pub mod Light
pub mod Blocks
use compound_liquidation.Prelude.{
  ℕ, String, Bool, Option, none, some, List, Dict, lookup, Result, ok, err, at_index, ◌>>=◌, Error,
  if◌then◌else◌,
}
use compound_liquidation.Prelude.Int.{ℤ}
use compound_liquidation.Prelude.Text.{slice_from, from_hex}

-- A value that `eth_abi.decode` returns.
pub data AbiValue : Type 0 where
  address : String → AbiValue
  uint : ℤ → AbiValue
  bytes : List ℕ → AbiValue
  ints : List ℤ → AbiValue

pub record Eth : Type 0 where
  -- `HexBytes.hex`, with the prefix 0x
  pub hex : List ℕ → String
  -- `eth_abi.decode`; `none` where it raises
  pub decode : List String → List ℕ → Option (List AbiValue)
  -- `Web3.toChecksumAddress`
  pub to_checksum_address : String → String

-- web3's `LogReceipt`
pub record LogReceipt : Type 0 where
  pub removed : Bool
  pub address : String
  pub data_hex : String
  pub topics : List (List ℕ)
  pub block_number : ℤ
  pub block_hash : List ℕ
  pub transaction_index : ℤ
  pub transaction_hash : List ℕ

-- an entry of a table `EVENT_ABI`
pub record EventAbi : Type 0 where
  pub name : String
  pub types : List String

pub data Parsed : Type 0 where
  skipped undecodable : Parsed
  event : String → List AbiValue → Parsed

unfoldable pub parsed_args : String → Option (List AbiValue) → Parsed
parsed_args name none = undecodable
parsed_args name (some args) = event name args

module _ (eth : Eth) where
  open eth use {hex, decode, to_checksum_address}

  -- `decode(obj['data'], bytes.fromhex(log['data'][2:]))`
  unfoldable pub decode_data : List String → LogReceipt → Option (List AbiValue)
  decode_data types log = elim (from_hex (slice_from 2 log.data_hex)) [
    | none ↦ none
    | some bs ↦ decode types bs
  ]

  -- The handlers' common start: a removed log, and one with an unknown topic, is skipped.
  unfoldable pub parse_event : Dict EventAbi → LogReceipt → Result Parsed
  unfolding parsed_args decode_data
  parse_event abi log = if log.removed then ok skipped else do
    topic ← at_index log.topics 0
    elim (lookup (hex topic) abi) [
      | none ↦ ok skipped
      | some obj ↦ ok (parsed_args obj.name (decode_data obj.types log))
    ]

-- An item of the decoded arguments. The types of the table fix what stands there.
abbrev as_uint : AbiValue → Result ℤ
as_uint (AbiValue.uint n) = ok n
as_uint (AbiValue.address s) = err Error.type_error
as_uint (AbiValue.bytes b) = err Error.type_error
as_uint (AbiValue.ints l) = err Error.type_error

abbrev as_address : AbiValue → Result String
as_address (AbiValue.address s) = ok s
as_address (AbiValue.uint n) = err Error.type_error
as_address (AbiValue.bytes b) = err Error.type_error
as_address (AbiValue.ints l) = err Error.type_error

abbrev pub uint_at : List AbiValue → ℕ → Result ℤ
uint_at args i = do v ← at_index args i; as_uint v

abbrev pub address_at : List AbiValue → ℕ → Result String
address_at args i = do v ← at_index args i; as_address v
