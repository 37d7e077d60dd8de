-- ===== src/Worker/Moves.antt =====
-- What an event can do to the state of its connection.
use mosss.Common.{
  ℕ, ◌≡◌, refl, sym, ap, subst, ◌∙◌, List, [], Result, undefined, malformed_varint, buffer_overflow,
  length_error, terminated, blocked, system_error, no_fuel, ok, err, Option, some, none, get_elem?,
  Bool-cases, inl, inr, ltb, arith, >>=-eq-ok, ◌>>=◌, true, ◌⊎◌,
}
use mosss.ReadBuffer.{ReadBuffer, read_char}
use mosss.Connection.{Connection, State, Recv, process, ready, reset}
use mosss.Connection.Keeps.{value, process-In, reset-keeps}
use mosss.Worker.Session.{Io, Session, on_rbuf}
use mosss.Worker.Tables.{Parser, element, parsers, parser_at, dispatch}
use mosss.Worker.States.{Step, stays, session_of}
use mosss.Worker.Protocol.{in_state}
use mosss.Worker.Events.{parse, still_there, catching, on_event}

element_lem : (e : Option Parser) (p : Parser) → element e ≡ ok p → e ≡ some p
element_lem none p h = absurd cc
element_lem (some q) p h = cc

parser_at_lem :
    (state : State) (k : ℕ) (p : Parser)
    → parser_at state k ≡ ok p
    → get_elem? (parsers state) k ≡ some p
unfolding parser_at
parser_at_lem state k p h = elim (Bool-cases (ltb 127 k)) [
  | inl far ↦ absurd (ground (arith, h, far))
  | inr near ↦ element_lem _ p (rw near at h)
]

-- A packet moves its connection along an edge that carries its id, or leaves it where it is.
dispatch-Step :
    (k : ℕ) (io : Io) (s : Session) {x : List ℕ} {s' : Session}
    → dispatch k io s ≡ ok (x, s')
    → Step k s.conn.state s'.conn.state
unfolding dispatch
dispatch-Step k io s h =
    let (p, found, h1) = >>=-eq-ok (parser_at s.conn.state k) _ h in
    in_state io s p k s.conn.state refl (parser_at_lem s.conn.state k p found) h1

-- A whole packet is there after the bytes `r` came, and its first byte is `packet_id`.
pub record Arrived (r : Recv) (s : Session) (packet_id : ℕ) : Type 0 where
  pub conn : Connection
  pub there : process r s.conn ≡ ok (some conn)
  pub complete : ready conn ≡ true
  pub rest : ReadBuffer
  pub id : read_char conn.rbuf ≡ ok (packet_id, rest)

-- The state after an event is the one before, or the packet that the event completed moved it along
-- an edge of its id.
abbrev pub Moves : Recv → Session → State → Type 0
Moves r s after =
    (after ≡ s.conn.state)
    ⊎ ((packet_id : ℕ) × Arrived r s packet_id × Step packet_id s.conn.state after)

-- A read that returns, and what follows it.
read_parts :
    {A B : Type 0} (call : ReadBuffer → Result (A × ReadBuffer)) (s : Session)
    (next : A × Session → Result B) {b : B}
    → (on_rbuf call s >>= next) ≡ ok b
    → (x : A) × (r : ReadBuffer) × (call s.conn.rbuf ≡ ok (x, r))
      × (next (x, record s { conn = record s.conn { rbuf = r } }) ≡ ok b)
read_parts call s next h =
    let ((x, s1), e, h1) = >>=-eq-ok (on_rbuf call s) next h in
    let ((y, r), id, h2) = >>=-eq-ok (call s.conn.rbuf) _ e in
    let same : ok (y, record s { conn = record s.conn { rbuf = r } }) ≡ ok (x, s1) = h2 in
    (y, r, id, ap (λ q. q >>= next) same ∙ h1)

parse-Step :
    (io : Io) (s : Session) {x : List ℕ} {s' : Session}
    → parse io s ≡ ok (x, s')
    → (packet_id : ℕ) × (r : ReadBuffer) × (read_char s.conn.rbuf ≡ ok (packet_id, r))
      × Step packet_id s.conn.state s'.conn.state
unfolding parse
parse-Step io s {s' = s'} h =
    let (packet_id, r, id, h1) = read_parts read_char s _ h in
    let s1 = record s { conn = record s.conn { rbuf = r } } in
    let ((taken, s2), e2, h2) = >>=-eq-ok (dispatch packet_id io s1) _ h1 in
    let (c, e3, h3) = >>=-eq-ok (reset s2.conn) _ h2 in
    let step = dispatch-Step packet_id io s1 e2 in
    let same = sym (reset-keeps s2.conn e3) ∙ ap (λ (t : Session). t.conn.state) (session_of h3) in
    (packet_id, r, id, subst (Step packet_id s.conn.state) same step)

still_there_lem :
    (there : Option Connection) {c : Connection} → still_there there ≡ ok c → there ≡ some c
still_there_lem none h = absurd cc
still_there_lem (some d) h = cc

catching_lem :
    (r : Result (List ℕ × Session)) (a : List ℕ × Session) → catching r ≡ ok (some a) → r ≡ ok a
catching_lem (ok b) a h = cc
catching_lem (err undefined) a h = absurd cc
catching_lem (err malformed_varint) a h = absurd cc
catching_lem (err buffer_overflow) a h = absurd cc
catching_lem (err length_error) a h = absurd cc
catching_lem (err terminated) a h = absurd cc
catching_lem (err blocked) a h = absurd cc
catching_lem (err system_error) a h = absurd cc
catching_lem (err no_fuel) a h = absurd cc

-- An event that returns, and leaves its connection there, leaves it in its state, or the event
-- completed a packet and moved the connection along one of the five edges of `Step` that carries the
-- id of this packet, the first byte behind its length: 0 from `HANDSHAKE` to `STATUS` or `LOGIN`, 1
-- from `STATUS` to `HANDSHAKE`, 3 from `LOGIN` to `CONFIG`, and 3 from `CONFIG` to `PLAY`.
pub on_event-Moves :
    (io : Io) (r : Recv) (s : Session) (x : List ℕ) (s' : Session)
    → on_event io r s ≡ ok (some (x, s'))
    → Moves r s s'.conn.state
unfolding on_event
on_event-Moves io r s x s' h =
    let (there, e1, h1) = >>=-eq-ok (process r s.conn) _ (catching_lem _ (x, s') h) in
    let (c, e2, h2) = >>=-eq-ok (still_there there) _ h1 in
    let whole : process r s.conn ≡ ok (some c) = e1 ∙ ap ok (still_there_lem there e2) in
    let kept : c.state ≡ s.conn.state = value whole (process-In r s.conn) in
    elim (Bool-cases (ready c)) [
      | inl now ↦
          let (packet_id, rest, id, step) = parse-Step io (record s { conn = c }) (rw now at h2) in
          let arrived : Arrived r s packet_id = record {
            conn = c;
            there = whole;
            complete = now;
            rest = rest;
            id = id;
          } in
          inr (packet_id, arrived, subst (λ t. Step packet_id t s'.conn.state) kept step)
      | inr later ↦
          let same = session_of {a = ([], record s { conn = c })} {b = (x, s')} (rw later at h2) in
          inl (sym (ap (λ (t : Session). t.conn.state) same) ∙ kept)
    ]

pub on_event-Step :
    (io : Io) (r : Recv) (s : Session) (x : List ℕ) (s' : Session)
    → on_event io r s ≡ ok (some (x, s'))
    → (packet_id : ℕ) × Step packet_id s.conn.state s'.conn.state
on_event-Step io r s x s' h = elim (on_event-Moves io r s x s' h) [
  | inl same ↦ (0, subst (Step 0 s.conn.state) (sym same) stays)
  | inr (packet_id, _, step) ↦ (packet_id, step)
]
