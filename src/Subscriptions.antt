-- ===== src/Subscriptions.antt =====
-- The subscriptions: subscribe_to_node, subscribe_full and subscribe_event_light of utils.py, and
-- get_pending_transactions_light and liquidation_idel of compound.py. What the nodes send is a list of
-- sessions, from a connection to its end. A callback that raises ends its session too, and what it wrote
-- stays. Where the list ends, the program waits for the next session.
pub mod Sessions
pub mod Pending
use text.Mathlib.Text.{starts_with}
use Prim.Native.String as Text
use compound_liquidation.Prelude.{
  ℕ, suc, ◌+◌, String, Bool, true, false, ◌||◌, List, [], ◌∷◌, Result, ok, err, Error, leb,
  if◌then◌else◌, ◌==◌,
}
use compound_liquidation.Prelude.Int.{ℤ, pos}
use compound_liquidation.Prelude.Exec.{Exec, each}

-- a message, with the text of the exception that its callback would raise
pub record Received (M : Type 0) : Type 0 where
  pub message : M
  pub error_text : String

-- A connection that is refused, with the text of the exception, or one that gives messages until it is
-- lost, with the text of `recv`.
pub data Session (M : Type 0) : Type 0 where
  refused : (text : String) → Session M
  connected : (received : List (Received M)) (lost : String) → Session M

-- a subscription that waits for its next session, or one that has raised
pub data Outcome : Type 0 where
  waiting stopped : Outcome

-- `"1006" in str(e)`
unfoldable pub contains : String → String → Bool
contains part Text.[] = starts_with Text.[] part
contains part (Text.◌∷◌ c s) = starts_with (Text.◌∷◌ c s) part || contains part s

-- the text that `subscribe_to_node` raises where the node is lost
abbrev pub node_failed : (sub_name text : String) → String
node_failed sub_name text =
    Text.◌++◌ "subscribe " (Text.◌++◌ sub_name (Text.◌++◌ " get response from node failed: " text))

module _ {S M : Type 0} (callback : M → Exec S (Unit {0})) (sub_name : String) where
  -- the inner loop, which ends with the text of an exception
  unfoldable pub deliver : List (Received M) → (lost : String) → S → String × S
  deliver [] lost s = (node_failed sub_name lost, s)
  deliver (r ∷ received) lost s =
      let (result, t) = callback (Received.message r) s in
      elim result [ ok u ↦ deliver received lost t | err e ↦ (Received.error_text r, t) ]

  -- `subscribe_to_node`, which never returns: the text that it raises
  unfoldable pub subscribe_to_node : Session M → S → String × S
  unfolding deliver
  subscribe_to_node (refused text) s = (text, s)
  subscribe_to_node (connected received lost) s = deliver received lost s

  -- `subscribe_full`: a session that ends with 1006 in its text is not counted
  unfoldable pub subscribe_full : (counter : ℕ) → List (Session M) → S → Outcome × S
  unfolding subscribe_to_node contains
  subscribe_full counter [] s = (if leb 3 counter then stopped else waiting, s)
  subscribe_full counter (session ∷ sessions) s =
      let (text, t) = subscribe_to_node session s in
      let next = if contains "1006" text then counter else suc counter in
      let rest = subscribe_full next sessions t in if leb 3 counter then (stopped, s) else rest

  -- `subscribe_event_light`, whose counter stands before its loop
  unfoldable pub subscribe_event_light_from : (counter : ℕ) → List (Session M) → S → Outcome × S
  unfolding subscribe_to_node
  subscribe_event_light_from counter [] s = (if leb 6 (suc counter) then stopped else waiting, s)
  subscribe_event_light_from counter (session ∷ sessions) s =
      let rest =
        subscribe_event_light_from (suc counter) sessions (subscribe_to_node session s).1 in
      if leb 6 (suc counter) then (stopped, s) else rest

  unfoldable pub subscribe_event_light : List (Session M) → S → Outcome × S
  unfolding subscribe_event_light_from
  subscribe_event_light sessions s = subscribe_event_light_from 0 sessions s

-- what the light node sends of pending transactions: several at once, or nothing for an hour
pub data Incoming (T : Type 0) : Type 0 where
  txs : List T → Incoming T
  timeout : Incoming T

-- one connection of `get_pending_transactions_light`, until it is lost
pub data Stream (T : Type 0) : Type 0 where
  no_connection : Stream T
  stream : List (Incoming T) → Stream T

module _ {S T : Type 0} (callback : T → Exec S (Unit {0})) where
  -- the inner loop, until the connection is lost or a callback raises; the exception is dropped
  unfoldable pub take_incoming : List (Incoming T) → S → S
  unfolding each
  take_incoming [] s = s
  take_incoming (timeout ∷ incoming) s = take_incoming incoming s
  take_incoming (txs ts ∷ incoming) s =
      let (result, t) = each callback ts s in
      let rest = take_incoming incoming t in elim result [ ok u ↦ rest | err e ↦ t ]

  unfoldable pub take_stream : Stream T → S → S
  unfolding take_incoming
  take_stream no_connection s = s
  take_stream (stream incoming) s = take_incoming incoming s

  -- `get_pending_transactions_light`, where `counter` connections were made
  unfoldable pub get_pending_transactions_light : (counter : ℕ) → List (Stream T) → S → Outcome × S
  unfolding take_stream
  get_pending_transactions_light counter [] s = (waiting, s)
  get_pending_transactions_light counter (connection ∷ connections) s =
      let t = take_stream connection s in
      let rest = get_pending_transactions_light (suc counter) connections t in
      if leb 3 (suc counter) then (stopped, t) else rest

-- `liquidation_idel`, on the times of its rounds: the block of a round is the next one's
unfoldable pub liquidation_idel :
    {S : Type 0} (callback : ℤ → ℤ → Exec S ℤ) → (prev_block : ℤ) → (rounds : List ℤ) → Exec S ℤ
liquidation_idel callback prev_block [] s = (ok prev_block, s)
liquidation_idel callback prev_block (now ∷ rounds) s =
    let (result, t) = callback now prev_block s in
    elim result [
      | ok block ↦ liquidation_idel callback block rounds t
      | err e ↦ (err Error.raised, t)
    ]
