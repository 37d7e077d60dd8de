-- ===== src/Worker/History.antt =====
-- The states that a connection has been in, over any number of events.
use mosss.Common.{ℕ, ◌≡◌, refl, sym, subst, List, [], ◌∷◌, ◌++◌, ok, some, ap}
use mosss.Connection.{
  State, Recv, handshake_state, status_state, login_state, config_state, play_state,
}
use mosss.Worker.Session.{Io, Session}
use mosss.Worker.States.{Step, stays, to_status, to_login, pinged, acknowledged, configured}
use mosss.Worker.Events.{on_event}
use mosss.Worker.Moves.{on_event-Step}

-- `Run s past s'`: events that return take `s` to `s'`; `past` has the states after them, the last
-- one first, and at its end the state of `s`.
pub data Run (s : Session) : List State → Session → Type 0 where
  begun : Run s (s.conn.state ∷ []) s
  event :
      {past : List State} {s1 : Session} (io : Io) (r : Recv) (x : List ℕ) (s2 : Session)
      → Run s past s1
      → on_event io r s1 ≡ ok (some (x, s2))
      → Run s (s2.conn.state ∷ past) s2

-- The state `state` is in `past`, with `rest` before it.
pub record Before (state : State) (past : List State) : Type 0 where
  pub since : List State
  pub rest : List State
  pub split : past ≡ since ++ (state ∷ rest)

-- What must have come before: the login before the configuration, and both before the game.
abbrev pub Earned : State → List State → Type 0
Earned handshake_state past = Unit {0}
Earned status_state past = Unit
Earned login_state past = Unit
Earned config_state past = Before login_state past
Earned play_state past = (b : Before config_state past) × Before login_state b.rest

abbrev earlier_still :
    {state : State} {past : List State} (now : State)
    → Before state past
    → Before state (now ∷ past)
earlier_still now b = record {
  since = now ∷ b.since;
  rest = b.rest;
  split = ap (λ xs. now ∷ xs) b.split;
}

Earned-cons :
    (state now : State) (past : List State) → Earned state past → Earned state (now ∷ past)
Earned-cons handshake_state now past e = tt
Earned-cons status_state now past e = tt
Earned-cons login_state now past e = tt
Earned-cons config_state now past e = earlier_still now e
Earned-cons play_state now past e = (earlier_still now e.0, e.1)

abbrev latest : (state : State) (past : List State) → Before state (state ∷ past)
latest state past = record { since = []; rest = past; split = refl }

Step-Earned :
    {packet_id : ℕ} {before after : State} (past : List State)
    → Step packet_id before after
    → Earned before past
    → Earned after (before ∷ past)
Step-Earned {before = before} past stays e = Earned-cons before before past e
Step-Earned past to_status e = tt
Step-Earned past to_login e = tt
Step-Earned past pinged e = tt
Step-Earned past acknowledged e = latest login_state past
Step-Earned past configured e = (latest config_state past, e)

-- `past` begins with the state of the connection.
record Current (s : Session) (past : List State) : Type 0 where
  earlier : List State
  begins : past ≡ s.conn.state ∷ earlier
  earned : Earned s.conn.state earlier

Run-Current :
    {s : Session} {past : List State} {s' : Session}
    → s.conn.state ≡ handshake_state
    → Run s past s'
    → Current s' past
Run-Current {s} first begun = record {
  earlier = [];
  begins = refl;
  earned = subst (λ t. Earned t []) (sym first) tt;
}
Run-Current first (event {s1 = s1} io r x s2 run e) =
    let c = Run-Current first run in
    let (packet_id, step) = on_event-Step io r s1 x s2 e in
    record {
      earlier = _;
      begins = refl;
      earned = subst (Earned s2.conn.state) (sym c.begins) (Step-Earned c.earlier step c.earned);
    }

-- A connection that began in the state `HANDSHAKE` and whose events returned is configured
-- only after it was in the state `LOGIN`, and in the game only after it was in the states `LOGIN`
-- and then `CONFIG`.
pub Run-Earned :
    {s : Session} {past : List State} (s' : Session)
    → s.conn.state ≡ handshake_state
    → Run s past s'
    → Earned s'.conn.state past
Run-Earned s' first run =
    let c = Run-Current first run in
    subst (Earned s'.conn.state) (sym c.begins)
      (Earned-cons s'.conn.state s'.conn.state c.earlier c.earned)

-- Once a connection is in the state `PLAY`, it is in that state after every event that returns.
pub play_stays :
    (io : Io) (r : Recv) (s : Session) (x : List ℕ) (s' : Session)
    → s.conn.state ≡ play_state
    → on_event io r s ≡ ok (some (x, s'))
    → s'.conn.state ≡ play_state
play_stays io r s x s' here h =
    let (packet_id, step) = on_event-Step io r s x s' h in only step here
  where
    only :
        {k : ℕ} {before after : State}
        → Step k before after
        → before ≡ play_state
        → after ≡ play_state
    only stays e = e
    only to_status e = absurd cc
    only to_login e = absurd cc
    only pinged e = absurd cc
    only acknowledged e = absurd cc
    only configured e = refl
