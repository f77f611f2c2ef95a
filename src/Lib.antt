-- ===== src/Lib.antt =====
-- The liquidation bot for Compound-style lending markets, configured for Venus on BSC.
--
-- The bot follows the markets of the protocol over a websocket. It keeps the position of every user up to
-- date from the logs of the chain (configs/users.py, configs/tokens.py, configs/comet.py), the price of
-- every market from pending and confirmed oracle transactions (configs/signals.py), and the head of the
-- chain (configs/block.py). When prices or positions change it computes the users' health factors
-- (compound.py: calculate_health_factor), looks for the debts to repay and the collateral to seize of the
-- users below 1 (compound.py: liquidation_simulation), and for a swap that pays the repayment back
-- (configs/router.py).
--
-- The modules and the code they model:
-- - Prelude: what Python gives, with the lemmas on it. Integers (Int), `dict` as a list of entries in the
--   order of insertion (Dicts), exceptions as values (Errors), methods that change an object and may raise
--   (Exec), `sorted` (Sort), texts (Text), and floats as an interface with the laws used (Float).
-- - Config: the constants of configs/config.py. Chain: types_light.py and the common start of the event
--   handlers; the libraries eth_abi, hexbytes and web3 are the record `Eth`, an argument of the handlers.
-- - Price: class CtokenPrice of configs/signals.py. Block: class BlockInfos of configs/block.py.
--   Comet: class CometConfigs of configs/comet.py. Events: configs/event.py and configs/vai.py.
-- - Tokens: configs/tokens.py. Tokens.Reload: its cache files written and read.
-- - Users: configs/users.py. Users.Access holds the reads and writes through keys, Users.Handlers the
--   method States.update event by event, Users.Queries the questions about users and trim. Users.Sums,
--   Users.Holds, Users.Checked and Users.Conservation are about the sum of each market's cTokens.
-- - Users.Cache: the cache files of States, written and read, as records of what json is given.
-- - Users.HighProfit: HighProfitSates of configs/users.py, which the callbacks work on. The full states say
--   of each user and each reserve whether the object is the high-profit states' own (Held).
--   Users.HighProfit.Merge and Completed are about its update, Parent about the full states behind it.
-- - Health: calculate_health_factor and the functions about its results, of compound.py.
--   Health.Trimming: users_trimming and the searches for users below a threshold.
-- - Liquidation: liquidation_simulation of compound.py. Liquidation.Targets: profit_simulation, with the
--   global list of routing tokens as the state. Liquidation.Guards: the table users_to_liquidate.
--   Liquidation.Start: liquidation_start and signal_simulate_health_factor, on all that they change.
-- - Signals: class Signals of configs/signals.py and its two subclasses. Chain.Light: types_light.py.
-- - Send: transaction/types.py and transaction/send.py, with BnB48Sender in Send.Bnb48. Bots: the call data of bots.py.
-- - Sync: the loops over the logs of configs/utils.py and configs/users.py, on a fuel of the number of
--   blocks that are missing, each round of which moves on by a block at least.
-- - Router: configs/router.py, with the global list of routing tokens passed in and out. Router.Pools and
--   Router.Setup: which pools the factories are asked for, with the factories as parameters.
-- - Protocol: what configs/protocol.py, configs/signals.py and configs/comet.py ask the contracts at the
--   start. Signals.Setup: init_signals, with the price sources as a parameter.
-- - Subscriptions: the loops of utils.py and compound.py that connect again, on lists of sessions: a session
--   is what one connection gives, and where the list ends the program waits.
-- - Bot: the globals of compound.py (World) and what it calls outside of the program (Outside).
--   Bot.Logs and Bot.Feeds: the callbacks of the chain's logs and on_message. Bot.Rounds: pt and
--   liquidation_idle_callback. Bot.Series: the tasks of main, as a series of callbacks. Bot.Nearby is about
--   the lists of users near liquidation, Bot.Rounds.Queue about the users that wait, and Bot.Blocks about
--   the blocks of the last updates. A callback runs to its end before the next one starts.
-- - Bot.Start: the main block of compound.py before the tasks run, which makes the first World from the cache
--   files and from what the contracts and the node answer (Node). Bot.Start.Globals: the globals.
--   Bot.Start.Lists: the high-profit states, the lists of users near liquidation, and the whole start-up.
-- - Listener: LiquidationCall of liquidations.py, which reports the liquidations of others. Its callback in
--   compound.py changes nothing else, and is left out of Bot.Series.
-- - Samples and Tests: concrete parameters, and the theorems at concrete inputs.
--
-- How the model stands to the code. An object that owns its parts is a record by value; a method that may
-- raise returns the state beside the result, with what was written before the exception left in place.
-- Integers are unbounded as in Python, `//` rounds down and raises at zero. Floats are a type F with the
-- operations the code uses; theorems ask of F that its order is strict, that a quotient of integers below
-- one has a dividend below its divisor, and that dividing by one changes nothing. Loops over lists
-- are structural recursion. The digits of a number are found on a fuel of the number itself, which is at
-- least its number of digits; the binary search of Health.Trimming has the number of users as its fuel,
-- and each round makes its interval shorter. The time is an argument.
--
-- Not modelled: logging, processes, JSON, what the subscriptions send, the web3 objects that the start-up of
-- compound.py makes, the encoding of calls to contracts by web3, signing, and the vendored libraries bxcommon and bxutils. The swap simulation of
-- Uniswap v3 asks a contract.
pub mod Prelude
pub mod Config
pub mod Chain
pub mod Price
pub mod Tokens
pub mod Block
pub mod Comet
pub mod Events
pub mod Users
pub mod Health
pub mod Router
pub mod Liquidation
pub mod Signals
pub mod Send
pub mod Bots
pub mod Sync
pub mod Protocol
pub mod Subscriptions
pub mod Bot
pub mod Listener
pub mod Samples
pub mod Tests
