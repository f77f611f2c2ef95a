-- ===== src/Subscriptions/Sessions.antt =====
-- About the subscriptions: how many sessions each has, and which messages its callback gets.
use compound_liquidation.Prelude.{
  ℕ, zero, suc, ◌+◌, String, true, false, List, [], ◌∷◌, Result, ok, err, leb, if◌then◌else◌, ◌≡◌,
  refl, ◌∙◌, ap, arith, length, take, Bool-cases, inl, inr, ◌⊎◌,
}
use compound_liquidation.Prelude.Exec.{Exec, each, continue}
use compound_liquidation.Subscriptions.{
  Received, Session, refused, connected, Outcome, waiting, stopped, contains, deliver,
  subscribe_to_node, subscribe_full, subscribe_event_light_from, subscribe_event_light,
}

unfoldable pub messages_of : {M : Type 0} → List (Received M) → List M
messages_of [] = []
messages_of (r ∷ received) = Received.message r ∷ messages_of received

-- what the node sends in a session
unfoldable pub messages : {M : Type 0} → Session M → List M
unfolding messages_of
messages (refused text) = []
messages (connected received lost) = messages_of received

module _ {S M : Type 0} (callback : M → Exec S (Unit {0})) where
  -- the state after sessions: each gives the callback its messages in order, up to the first that
  -- raises
  unfoldable pub after_sessions : List (Session M) → S → S
  unfolding messages each
  after_sessions [] s = s
  after_sessions (session ∷ sessions) s =
      after_sessions sessions (each callback (messages session) s).1

  module _ (sub_name : String) where
    raised_or :
        (r : Received M) (received : List (Received M)) (lost : String) (result : Result (Unit {0}))
        (t : S)
        → ((deliver callback sub_name received lost t).1
            ≡ (each callback (messages_of received) t).1)
        → (elim result as (λ _. String × S) [
          | ok u ↦ deliver callback sub_name received lost t
          | err e ↦ (Received.error_text r, t)
        ]).1
          ≡ (continue result t (λ _. each callback (messages_of received))).1
    raised_or r received lost (ok u) t h = h
    raised_or r received lost (err e) t h = refl

    deliver-each :
        (received : List (Received M)) (lost : String) (s : S)
        → (deliver callback sub_name received lost s).1 ≡ (each callback (messages_of received) s).1
    unfolding deliver messages_of each
    deliver-each [] lost s = refl
    deliver-each (r ∷ received) lost s =
        let (result, t) = callback (Received.message r) s in
        raised_or r received lost result t (deliver-each received lost t)

    session-each :
        (session : Session M) (s : S)
        → (subscribe_to_node callback sub_name session s).1 ≡ (each callback (messages session) s).1
    unfolding subscribe_to_node messages each
    session-each (refused text) s = refl
    session-each (connected received lost) s = deliver-each received lost s

    after_sessions-next :
        (session : Session M) (sessions : List (Session M)) (s : S)
        → after_sessions sessions (subscribe_to_node callback sub_name session s).1
          ≡ after_sessions (session ∷ sessions) s
    unfolding after_sessions
    after_sessions-next session sessions s = ap (after_sessions sessions) (session-each session s)

    light_from :
        (left counter : ℕ) (sessions : List (Session M)) (s : S)
        → counter + left ≡ 5
        → subscribe_event_light_from callback sub_name counter sessions s ≡ (
          if leb left (length sessions) then stopped else waiting,
          after_sessions (take left sessions) s,
        )
    unfolding subscribe_event_light_from after_sessions
    light_from zero counter [] s h = let e : counter ≡ 5 = omega arith in rw e refl
    light_from zero counter (session ∷ sessions) s h =
        let e : counter ≡ 5 = omega arith in
        let some_left : leb 0 (suc (length sessions)) ≡ true = ground arith in
        rw (e, some_left) refl
    light_from (suc left) counter [] s h =
        let more : leb 6 (suc counter) ≡ false = ground arith in
        let none_left : leb (suc left) 0 ≡ false = ground arith in rw (more, none_left) refl
    light_from (suc left) counter (session ∷ sessions) s h =
        let more : leb 6 (suc counter) ≡ false = ground arith in
        let same : leb (suc left) (suc (length sessions)) ≡ leb left (length sessions) =
          ground arith in
        let t = (subscribe_to_node callback sub_name session s).1 in
        let outcome = if leb left (length sessions) then stopped else waiting in
        rw (more, same)
          (light_from left (suc counter) sessions t (omega arith)
            ∙ ap (λ u. (outcome, u)) (after_sessions-next session (take left sessions) s))

    -- subscribe_event_light raises where there are five sessions and waits where there are fewer,
    -- and the state is that of the first five one after the other, each of which gives the
    -- callback its messages in order, up to the first on which it raises.
    pub subscribe_event_light-messages :
        (sessions : List (Session M)) (s : S)
        → subscribe_event_light callback sub_name sessions s ≡ (
          if leb 5 (length sessions) then stopped else waiting,
          after_sessions (take 5 sessions) s,
        )
    unfolding subscribe_event_light
    subscribe_event_light-messages sessions s = light_from 5 0 sessions s refl

    -- how many of the sessions end without 1006 in the text that subscribe_to_node raises
    unfoldable pub counted : List (Session M) → S → ℕ
    unfolding subscribe_to_node contains
    counted [] s = 0
    counted (session ∷ sessions) s =
        let (text, t) = subscribe_to_node callback sub_name session s in
        let rest = counted sessions t in if contains "1006" text then rest else suc rest

    -- Where `left` sessions may still be counted: it waits after all the sessions, or it raises after
    -- the one that is counted last.
    abbrev pub Serves : (left : ℕ) → List (Session M) → S → Outcome × S → Type 0
    Serves left sessions s end =
        ((leb left (counted sessions s) ≡ false) × (end ≡ (waiting, after_sessions sessions s)))
        ⊎ ((leb left (counted sessions s) ≡ true)
            × (n : ℕ) × (end ≡ (stopped, after_sessions (take (suc n) sessions) s))
            × (counted (take n sessions) s + 1 ≡ left)
            × (counted (take (suc n) sessions) s ≡ left))

    full_stopped :
        (sessions : List (Session M)) (s : S)
        → subscribe_full callback sub_name 3 sessions s ≡ (stopped, s)
    unfolding subscribe_full
    full_stopped [] s = refl
    full_stopped (session ∷ sessions) s = refl

    full_from :
        (left counter : ℕ) (sessions : List (Session M)) (s : S)
        → counter + suc left ≡ 3
        → Serves (suc left) sessions s (subscribe_full callback sub_name counter sessions s)
    unfolding subscribe_full counted after_sessions
    full_from left counter [] s h =
        let more : leb 3 counter ≡ false = ground arith in inl (ground arith, rw more refl)
    full_from left counter (session ∷ sessions) s h =
        let more : leb 3 counter ≡ false = ground arith in
        let (text, t) = subscribe_to_node callback sub_name session s in
        let next = after_sessions-next session in
        elim (Bool-cases (contains "1006" text)) [
          | inl e ↦ elim (full_from left counter sessions t h) [
            | inl (few, end) ↦
                inl (rw e few, rw (more, e) (end ∙ ap (λ u. (waiting, u)) (next sessions s)))
            | inr (many, n, end, before, after) ↦ inr (
              rw e many,
              suc n,
              rw (more, e) (end ∙ ap (λ u. (stopped, u)) (next (take (suc n) sessions) s)),
              rw e before,
              rw e after,
            )
          ]
          | inr e ↦
              elim left
                  as (λ l.
                    counter + suc l ≡ 3
                    → Serves (suc l) (session ∷ sessions) s
                        (subscribe_full callback sub_name counter (session ∷ sessions) s)) [
                          | zero ↦ λ k.
                              let third : suc counter ≡ 3 = omega arith in
                              inr (
                                rw e (ground arith),
                                0,
                                rw (more, e, third)
                                    (full_stopped sessions t ∙ ap (λ u. (stopped, u)) (next [] s)),
                                refl,
                                rw e refl,
                              )
                          | suc l ↦ λ k. elim (full_from l (suc counter) sessions t (omega arith)) [
                            | inl (few, end) ↦ inl (
                              rw e (ground arith),
                              rw (more, e) (end ∙ ap (λ u. (waiting, u)) (next sessions s)),
                            )
                            | inr (many, n, end, before, after) ↦ inr (
                              rw e (ground arith),
                              suc n,
                              rw (more, e)
                                  (end ∙ ap (λ u. (stopped, u)) (next (take (suc n) sessions) s)),
                              rw e (omega arith),
                              rw e (omega arith),
                            )
                          ]
                        ]
                h
        ]

    -- With a session counted where it ends without 1006 in the text of its exception:
    -- subscribe_full waits after all the sessions where fewer than three of them are counted, and
    -- otherwise raises after the third that is counted. The sessions come one after the other, and
    -- each gives the callback its messages in order, up to the first on which it raises.
    pub subscribe_full-counted :
        (sessions : List (Session M)) (s : S)
        → Serves 3 sessions s (subscribe_full callback sub_name 0 sessions s)
    subscribe_full-counted sessions s = full_from 2 0 sessions s refl
