-- ===== src/Worker/Dispatch.antt =====
-- The call of a handler through the tables.
use mosss.Common.{
  ℕ, ◌≡◌, ◌<◌, ◌≤◌, refl, ap, ◌∙◌, ok, err, undefined, List, [], ◌∷◌, length, get_elem?, ltb, arith,
  zero, suc, false, Bool-cases, ◌>>=◌, ◌⊎◌, inl, inr, some, none, Option, ◌==◌, if◌then◌else◌, sym,
}
use native.Mathlib.Decide.{dec_lt}
use mosss.Connection.{State, handshake_state, status_state, login_state, config_state, play_state}
use mosss.Worker.Session.{Io, Session, PacketParser}
use mosss.Worker.Handlers.{
  handshake, status_request, ping_request, login_start, encryption_response, ignored,
  login_acknowledged, client_information, plugin_message, acknowledge_finish_config,
}
use mosss.Worker.Protocol.{inert_lem, play-inert}
use mosss.Worker.Tables.{
  Parser, handshaking, status, login, config, play, parsers, parser_at, dispatch, call_parser,
}

-- A packet whose handler is in the table of the state is given to it.
pub dispatch-call_parser :
    (packet_id : ℕ) (io : Io) (s : Session) (state : State) (p : Parser)
    → s.conn.state ≡ state
    → parser_at state packet_id ≡ ok p
    → dispatch packet_id io s ≡ call_parser p io s
unfolding dispatch
dispatch-call_parser packet_id io s state p here found =
    ap (λ r. r >>= λ q. call_parser q io s) (ap (λ st. parser_at st packet_id) here ∙ found)

-- The number of ids that the protocol defines in a state.
abbrev pub ids : State → ℕ
ids handshake_state = 1
ids status_state = 2
ids login_state = 5
ids config_state = 8
ids play_state = 64

length-parsers : (state : State) → length (parsers state) ≡ ids state
unfolding parsers handshaking status login config play
length-parsers handshake_state = refl
length-parsers status_state = refl
length-parsers login_state = refl
length-parsers config_state = refl
length-parsers play_state = refl

get_elem?_inside :
    (ps : List Parser) (k : ℕ) → k < length ps → (p : Parser) × (get_elem? ps k ≡ some p)
get_elem?_inside [] k h = absurd (omega arith)
get_elem?_inside (p ∷ ps) zero h = (p, refl)
get_elem?_inside (p ∷ ps) (suc k) h = get_elem?_inside ps k (omega arith)

get_elem?_outside : (ps : List Parser) (k : ℕ) → length ps ≤ k → get_elem? ps k ≡ none
get_elem?_outside [] k h = refl
get_elem?_outside (p ∷ ps) zero h = absurd (omega arith)
get_elem?_outside (p ∷ ps) (suc k) h = get_elem?_outside ps k (omega arith)

ids_le : (state : State) → ids state ≤ 64
ids_le handshake_state = omega arith
ids_le status_state = omega arith
ids_le login_state = omega arith
ids_le config_state = omega arith
ids_le play_state = omega arith

parser_at-inside :
    (state : State) (k : ℕ) (p : Parser)
    → k < ids state
    → get_elem? (parsers state) k ≡ some p
    → parser_at state k ≡ ok p
unfolding parser_at
parser_at-inside state k p h found =
    let below : ltb 127 k ≡ false = ground (arith, ids_le state) in rw (below, found) refl

parser_at-outside : (state : State) (k : ℕ) → ids state ≤ k → parser_at state k ≡ err undefined
unfolding parser_at
parser_at-outside state k h =
    let missing = get_elem?_outside (parsers state) k (omega (arith, length-parsers state)) in
    elim (Bool-cases (ltb 127 k)) [ inl far ↦ rw far refl | inr near ↦ rw (near, missing) refl ]

-- The two ways that the call can go.
pub dispatch_cases :
    (packet_id : ℕ) (io : Io) (s : Session)
    → ((packet_id < ids s.conn.state)
        × ((p : Parser) × (get_elem? (parsers s.conn.state) packet_id ≡ some p)
            × (dispatch packet_id io s ≡ call_parser p io s)))
      ⊎ ((ids s.conn.state ≤ packet_id) × (dispatch packet_id io s ≡ err undefined))
unfolding dispatch
dispatch_cases packet_id io s =
    let state = s.conn.state in
    elim (dec_lt packet_id (ids state)) [
      | yes inside ↦
          let (p, found) =
            get_elem?_inside (parsers state) packet_id (omega (arith, length-parsers state)) in
          inl (
            inside,
            (
              p,
              found,
              dispatch-call_parser packet_id io s state p refl
                  (parser_at-inside state packet_id p inside found),
            ),
          )
      | no outside ↦ inr (
        omega arith,
        ap (λ r. r >>= λ q. call_parser q io s) (parser_at-outside state packet_id (omega arith)),
      )
    ]

-- The handler of each packet that a client may send in a state, by the id of the packet in the
-- protocol; `ignored` is that of the packets that are only logged.
abbrev pub specified : State → ℕ → Option PacketParser
specified handshake_state k = if k == 0 then some handshake else none
specified status_state k =
    if k == 0 then some status_request else if k == 1 then some ping_request else none
specified login_state k =
    if k == 3
    then some login_acknowledged
    else if k == 0
    then some login_start
    else if k == 1
    then some encryption_response
    else if ltb k 5
    then some ignored
    else none
specified config_state k =
    if k == 0
    then some client_information
    else if k == 2
    then some plugin_message
    else if k == 3
    then some acknowledge_finish_config
    else if ltb k 8
    then some ignored
    else none
specified play_state k = if ltb k 64 then some ignored else none

-- A packet with that handler, or with none.
abbrev pub answer : Option PacketParser → PacketParser
answer none io s = err undefined
answer (some handler) io s = handler io s

get_elem?_before : (ps : List Parser) (k : ℕ) (p : Parser) → get_elem? ps k ≡ some p → k < length ps
get_elem?_before ps k p e = elim (dec_lt k (length ps)) [
  | yes inside ↦ inside
  | no outside ↦ let missing = get_elem?_outside ps k (omega arith) in absurd cc
]

answer_of :
    {p q : Parser} (io : Io) (s : Session)
    → some q ≡ some p
    → call_parser p io s ≡ call_parser q io s
answer_of io s e = cc

-- The tables list what is specified.
specified-parsers :
    (state : State) (k : ℕ) (p : Parser) (io : Io) (s : Session)
    → get_elem? (parsers state) k ≡ some p
    → call_parser p io s ≡ answer (specified state k) io s
unfolding parsers handshaking status login config play call_parser ignored
specified-parsers handshake_state zero p io s e = answer_of io s e
specified-parsers handshake_state (suc k) p io s e = absurd cc
specified-parsers status_state zero p io s e = answer_of io s e
specified-parsers status_state (suc zero) p io s e = answer_of io s e
specified-parsers status_state (suc (suc k)) p io s e = absurd cc
specified-parsers login_state zero p io s e = answer_of io s e
specified-parsers login_state (suc zero) p io s e = answer_of io s e
specified-parsers login_state (suc (suc zero)) p io s e = answer_of io s e
specified-parsers login_state (suc (suc (suc zero))) p io s e = answer_of io s e
specified-parsers login_state (suc (suc (suc (suc zero)))) p io s e = answer_of io s e
specified-parsers login_state (suc (suc (suc (suc (suc k))))) p io s e = absurd cc
specified-parsers config_state zero p io s e = answer_of io s e
specified-parsers config_state (suc zero) p io s e = answer_of io s e
specified-parsers config_state (suc (suc zero)) p io s e = answer_of io s e
specified-parsers config_state (suc (suc (suc zero))) p io s e = answer_of io s e
specified-parsers config_state (suc (suc (suc (suc zero)))) p io s e = answer_of io s e
specified-parsers config_state (suc (suc (suc (suc (suc zero))))) p io s e = answer_of io s e
specified-parsers config_state (suc (suc (suc (suc (suc (suc zero)))))) p io s e = answer_of io s e
specified-parsers config_state (suc (suc (suc (suc (suc (suc (suc zero))))))) p io s e =
    answer_of io s e
specified-parsers config_state (suc (suc (suc (suc (suc (suc (suc (suc k)))))))) p io s e =
    absurd cc
specified-parsers play_state k p io s e =
    let listed : k < 64 = get_elem?_before play k p e in
    let given : specified play_state k ≡ some ignored = ground arith in
    inert_lem p io s (play-inert k p (unfold parsers in e)) ∙ ap (λ o. answer o io s) (sym given)

unspecified : (state : State) (k : ℕ) → ids state ≤ k → specified state k ≡ none
unspecified handshake_state k h = ground arith
unspecified status_state k h = ground arith
unspecified login_state k h = ground arith
unspecified config_state k h = ground arith
unspecified play_state k h = ground arith

-- For every packet id and state: the packet is given to the handler that the protocol has for this
-- id in the state of the connection, and where the protocol has none, the call goes through a
-- pointer behind the end, or in front, of the table of the state, which is undefined.
pub dispatch_lem :
    (packet_id : ℕ) (io : Io) (s : Session)
    → dispatch packet_id io s ≡ answer (specified s.conn.state packet_id) io s
dispatch_lem packet_id io s = elim (dispatch_cases packet_id io s) [
  | inl (inside, (p, found, called)) ↦
      called ∙ specified-parsers s.conn.state packet_id p io s found
  | inr (outside, fails) ↦
      fails ∙ ap (λ o. answer o io s) (sym (unspecified s.conn.state packet_id outside))
]
