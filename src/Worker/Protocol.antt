-- ===== src/Worker/Protocol.antt =====
-- What the packets of a client can do to the state of its connection.
use mosss.Common.{
  ℕ, zero, suc, ◌≡◌, refl, sym, ap, subst, ◌∙◌, List, [], ◌∷◌, ok, some, get_elem?, Bool, true,
  false, ◌&&◌, arith,
}
use mosss.Connection.{State, handshake_state, status_state, login_state, config_state, play_state}
use mosss.Worker.Session.{Io, Session, set_state}
use mosss.Worker.Handlers.{ignored, login_acknowledged, acknowledge_finish_config}
use mosss.Worker.Tables.{
  Parser, handshake_parser, status_request_parser, ping_request_parser, login_start_parser,
  encryption_response_parser, login_plugin_response_parser, login_acknowledged_parser,
  cookie_response_parser, client_information_parser, cookie_response_config_parser,
  plugin_message_parser, acknowledge_finish_config_parser, keep_alive_config_parser, pong_parser,
  resource_pack_response_parser, known_packs_parser, play_parser, handshaking, status, login,
  config, play, parsers, call_parser,
}
use mosss.Worker.States.{
  Step, stays, pinged, acknowledged, configured, session_of, handshake-Step, ping_request-Step,
  status_request-keeps, login_start-keeps, encryption_response-keeps, client_information-keeps,
  plugin_message-keeps,
}

-- A handler that changes nothing.
abbrev pub inert : Parser → Bool
inert handshake_parser = false
inert status_request_parser = false
inert ping_request_parser = false
inert login_start_parser = false
inert encryption_response_parser = false
inert login_plugin_response_parser = true
inert login_acknowledged_parser = false
inert cookie_response_parser = true
inert client_information_parser = false
inert cookie_response_config_parser = true
inert plugin_message_parser = false
inert acknowledge_finish_config_parser = false
inert keep_alive_config_parser = true
inert pong_parser = true
inert resource_pack_response_parser = true
inert known_packs_parser = true
inert (play_parser p) = true

pub inert_lem :
    (p : Parser) (io : Io) (s : Session) → inert p ≡ true → call_parser p io s ≡ ok ([], s)
unfolding call_parser ignored
inert_lem handshake_parser io s h = absurd cc
inert_lem status_request_parser io s h = absurd cc
inert_lem ping_request_parser io s h = absurd cc
inert_lem login_start_parser io s h = absurd cc
inert_lem encryption_response_parser io s h = absurd cc
inert_lem login_plugin_response_parser io s h = refl
inert_lem login_acknowledged_parser io s h = absurd cc
inert_lem cookie_response_parser io s h = refl
inert_lem client_information_parser io s h = absurd cc
inert_lem cookie_response_config_parser io s h = refl
inert_lem plugin_message_parser io s h = absurd cc
inert_lem acknowledge_finish_config_parser io s h = absurd cc
inert_lem keep_alive_config_parser io s h = refl
inert_lem pong_parser io s h = refl
inert_lem resource_pack_response_parser io s h = refl
inert_lem known_packs_parser io s h = refl
inert_lem (play_parser p) io s h = refl

abbrev all_inert : List Parser → Bool
all_inert [] = true
all_inert (p ∷ ps) = inert p && all_inert ps

all_inert_lem :
    (ps : List Parser) (k : ℕ) (p : Parser)
    → all_inert ps ≡ true
    → get_elem? ps k ≡ some p
    → inert p ≡ true
all_inert_lem [] k p h found = absurd cc
all_inert_lem (q ∷ ps) zero p h found = ground (arith, h, found)
all_inert_lem (q ∷ ps) (suc k) p h found = all_inert_lem ps k p ground (arith, h) found

pub play-inert : (k : ℕ) (p : Parser) → get_elem? (parsers play_state) k ≡ some p → inert p ≡ true
unfolding parsers play
play-inert k p = all_inert_lem play k p refl

-- The handler that an element of a table stands for.
listed :
    {p q : Parser} (io : Io) (s : Session) {a : List ℕ × Session}
    → some p ≡ some q
    → call_parser q io s ≡ ok a
    → call_parser p io s ≡ ok a
listed io s e h = cc

kept : {k : ℕ} {before state after : State} → before ≡ state → after ≡ before → Step k state after
kept {k} {state = state} here same = subst (Step k state) (sym here ∙ sym same) stays

state_after : {a b : List ℕ × Session} → ok a ≡ ok b → a.1.conn.state ≡ b.1.conn.state
state_after h = ap (λ (t : Session). t.conn.state) (session_of h)

module _ (io : Io) (s : Session) {x : List ℕ} {s' : Session} (p : Parser) where
  in_handshake :
      (k : ℕ)
      → s.conn.state ≡ handshake_state
      → get_elem? handshaking k ≡ some p
      → call_parser p io s ≡ ok (x, s')
      → Step k handshake_state s'.conn.state
  unfolding handshaking call_parser
  in_handshake zero here e h = handshake-Step io s here (listed io s e h)
  in_handshake (suc k) here e h = absurd cc

  in_status :
      (k : ℕ)
      → s.conn.state ≡ status_state
      → get_elem? status k ≡ some p
      → call_parser p io s ≡ ok (x, s')
      → Step k status_state s'.conn.state
  unfolding status call_parser
  in_status zero here e h = kept here (status_request-keeps io s (listed io s e h))
  in_status (suc zero) here e h =
      subst (Step 1 status_state) (sym (ping_request-Step io s (listed io s e h))) pinged
  in_status (suc (suc k)) here e h = absurd cc

  in_login :
      (k : ℕ)
      → s.conn.state ≡ login_state
      → get_elem? login k ≡ some p
      → call_parser p io s ≡ ok (x, s')
      → Step k login_state s'.conn.state
  unfolding login call_parser ignored login_acknowledged set_state
  in_login zero here e h = kept here (login_start-keeps io s (listed io s e h))
  in_login (suc zero) here e h = kept here (encryption_response-keeps io s (listed io s e h))
  in_login (suc (suc zero)) here e h = kept here (sym (state_after (listed io s e h)))
  in_login (suc (suc (suc zero))) here e h =
      subst (Step 3 login_state) (state_after (listed io s e h)) acknowledged
  in_login (suc (suc (suc (suc zero)))) here e h = kept here (sym (state_after (listed io s e h)))
  in_login (suc (suc (suc (suc (suc k))))) here e h = absurd cc

  in_config :
      (k : ℕ)
      → s.conn.state ≡ config_state
      → get_elem? config k ≡ some p
      → call_parser p io s ≡ ok (x, s')
      → Step k config_state s'.conn.state
  unfolding config call_parser ignored acknowledge_finish_config set_state
  in_config zero here e h = kept here (client_information-keeps io s (listed io s e h))
  in_config (suc zero) here e h = kept here (sym (state_after (listed io s e h)))
  in_config (suc (suc zero)) here e h = kept here (plugin_message-keeps io s (listed io s e h))
  in_config (suc (suc (suc zero))) here e h =
      subst (Step 3 config_state) (state_after (listed io s e h)) configured
  in_config (suc (suc (suc (suc zero)))) here e h = kept here (sym (state_after (listed io s e h)))
  in_config (suc (suc (suc (suc (suc zero))))) here e h =
      kept here (sym (state_after (listed io s e h)))
  in_config (suc (suc (suc (suc (suc (suc zero)))))) here e h =
      kept here (sym (state_after (listed io s e h)))
  in_config (suc (suc (suc (suc (suc (suc (suc zero))))))) here e h =
      kept here (sym (state_after (listed io s e h)))
  in_config (suc (suc (suc (suc (suc (suc (suc (suc k)))))))) here e h = absurd cc

  pub in_state :
      (k : ℕ) (state : State)
      → s.conn.state ≡ state
      → get_elem? (parsers state) k ≡ some p
      → call_parser p io s ≡ ok (x, s')
      → Step k state s'.conn.state
  unfolding parsers
  in_state k handshake_state here e h = in_handshake k here e h
  in_state k status_state here e h = in_status k here e h
  in_state k login_state here e h = in_login k here e h
  in_state k config_state here e h = in_config k here e h
  in_state k play_state here e h =
      let quiet = inert_lem p io s (play-inert k p (unfold parsers in e)) in
      kept here (sym (state_after (sym quiet ∙ h)))
