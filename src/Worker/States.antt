-- ===== src/Worker/States.antt =====
-- The states that a packet takes a connection to.
use mosss.Common.{
  ℕ, ◌≡◌, sym, ap, subst, ◌∙◌, List, [], ◌∷◌, arith, Result, ok, ◌>>=◌, Bool-cases, >>=-eq-ok,
  >>=-eq-ok, inl, inr, ◌==◌, if◌then◌else◌,
}
use mosss.ReadBuffer.{
  ReadBuffer, read_char, read_bool, read_varint, read_string, read_ushort, read_long, read_uuid,
}
use mosss.WriteBuffer.{WriteBuffer}
use mosss.Connection.{State, handshake_state, status_state, login_state, config_state, play_state}
use mosss.Worker.Session.{
  Io, Session, on_rbuf, on_wbuf, wbuf_now, string_at, new_string, set_state, init_player,
}
use mosss.Clientbound.{
  send_status_response, send_pong_response, send_login_success, send_plugin_message_config,
  send_feature_flags, send_finish_config,
}
use mosss.Worker.Handlers.{
  same_string, brand_channel, clams, vanilla, status_json, handshake, status_request, ping_request,
  login_start, encryption_response, configure, brand, client_information, plugin_message,
}

-- The packet with this id may take a connection from one state to the other.
pub data Step : ℕ → State → State → Type 0 where
  stays : {packet_id : ℕ} {state : State} → Step packet_id state state
  to_status : Step 0 handshake_state status_state
  to_login : Step 0 handshake_state login_state
  pinged : Step 1 status_state handshake_state
  acknowledged : Step 3 login_state config_state
  configured : Step 3 config_state play_state

-- A call on one of the two buffers that returns keeps the state.
pub after_read :
    {A B : Type 0} (call : ReadBuffer → Result (A × ReadBuffer)) (s : Session)
    (next : A × Session → Result B) {b : B}
    → (on_rbuf call s >>= next) ≡ ok b
    → (x : A) × (s1 : Session) × (s1.conn.state ≡ s.conn.state) × (next (x, s1) ≡ ok b)
after_read call s next h =
    let ((x, s1), e, h1) = >>=-eq-ok (on_rbuf call s) next h in
    let ((y, r), _, h2) = >>=-eq-ok (call s.conn.rbuf) _ e in (x, s1, cc, h1)

after_send :
    {B : Type 0} (call : WriteBuffer → Result (List ℕ × WriteBuffer)) (s : Session)
    (next : List ℕ × Session → Result B) {b : B}
    → (on_wbuf call s >>= next) ≡ ok b
    → (x : List ℕ) × (s1 : Session) × (s1.conn.state ≡ s.conn.state) × (next (x, s1) ≡ ok b)
after_send call s next h =
    let ((x, s1), e, h1) = >>=-eq-ok (on_wbuf call s) next h in
    let ((y, w), _, h2) = >>=-eq-ok (call (wbuf_now s)) _ e in (x, s1, cc, h1)

send_keeps :
    (call : WriteBuffer → Result (List ℕ × WriteBuffer)) (s : Session) {x : List ℕ} {s1 : Session}
    → on_wbuf call s ≡ ok (x, s1)
    → s1.conn.state ≡ s.conn.state
send_keeps call s h = let ((y, w), _, h1) = >>=-eq-ok (call (wbuf_now s)) _ h in cc

pub session_of : {a b : List ℕ × Session} → ok a ≡ ok b → a.1 ≡ b.1
session_of h = cc

-- What `handshake` does with `next_state`.
abbrev next_session : ℕ → Session → Session
next_session n s =
    if n == 1 then set_state status_state s else if n == 2 then set_state login_state s else s

next_state-Step :
    (n : ℕ) (s : Session) {s' : Session}
    → s.conn.state ≡ handshake_state
    → next_session n s ≡ s'
    → Step 0 handshake_state s'.conn.state
unfolding set_state
next_state-Step n s {s' = s'} here h = elim (Bool-cases (n == 1)) [
  | inl one ↦ subst (Step 0 handshake_state) (ground (arith, h, one)) to_status
  | inr more ↦ elim (Bool-cases (n == 2)) [
    | inl two ↦ subst (Step 0 handshake_state) (ground (arith, h, more, two)) to_login
    | inr other ↦ subst (Step 0 handshake_state) (sym here ∙ ground (arith, h, more, other)) stays
  ]
]

pub handshake-Step :
    (io : Io) (s : Session) {x : List ℕ} {s' : Session}
    → s.conn.state ≡ handshake_state
    → handshake io s ≡ ok (x, s')
    → Step 0 handshake_state s'.conn.state
unfolding handshake
handshake-Step io s {x} {s'} here h =
    let (pvn, s1, k1, h1) = after_read read_varint s _ h in
    let (ip, s2, k2, h2) = after_read read_string s1 _ h1 in
    let (port, s3, k3, h3) = after_read read_ushort s2 _ h2 in
    let (next_state, s4, k4, h4) = after_read read_varint s3 _ h3 in
    next_state-Step next_state s4 (k4 ∙ k3 ∙ k2 ∙ k1 ∙ here) (session_of h4)

-- The handlers after which the state is the same.
module _ (io : Io) (s : Session) {x : List ℕ} {s' : Session} where
  pub status_request-keeps : status_request io s ≡ ok (x, s') → s'.conn.state ≡ s.conn.state
  unfolding status_request
  status_request-keeps h =
      send_keeps (send_status_response (io 0) (string_at status_json s)) (new_string status_json s)
        h

  pub login_start-keeps : login_start io s ≡ ok (x, s') → s'.conn.state ≡ s.conn.state
  unfolding login_start init_player
  login_start-keeps h =
      let (username, s1, k1, h1) = after_read read_string s _ h in
      let (uuid, s2, k2, h2) = after_read read_uuid s1 _ h1 in
      let s3 = init_player username uuid s2 in
      let s4 = new_string username s3 in
      send_keeps (send_login_success (io 0) uuid (string_at username s3) (string_at [] s4))
        (new_string [] s4) h2
      ∙ k2
      ∙ k1

  pub encryption_response-keeps :
      encryption_response io s ≡ ok (x, s') → s'.conn.state ≡ s.conn.state
  unfolding encryption_response
  encryption_response-keeps h =
      let (secret, s1, k1, h1) = after_read read_string s _ h in
      let (token, s2, k2, h2) = after_read read_string s1 _ h1 in
      sym (ap (λ (t : Session). t.conn.state) (session_of h2)) ∙ k2 ∙ k1

  configure-keeps : configure io s ≡ ok (x, s') → s'.conn.state ≡ s.conn.state
  unfolding configure
  configure-keeps h =
      let s1 = new_string brand_channel s in
      let s2 = new_string clams s1 in
      let (taken1, s3, k3, h3) =
        after_send
          (send_plugin_message_config (io 0) (string_at brand_channel s) (string_at clams s1)) s2 _
          h in
      let s4 = new_string vanilla s3 in
      let (taken2, s5, k5, h5) =
        after_send (send_feature_flags (io 1) 1 (string_at vanilla s3 ∷ [])) s4 _ h3 in
      let (taken3, s6, k6, h6) = after_send (send_finish_config (io 2)) s5 _ h5 in
      sym (ap (λ (t : Session). t.conn.state) (session_of h6)) ∙ k6 ∙ k5 ∙ k3

pub client_information-keeps :
    (io : Io) (s : Session) {x : List ℕ} {s' : Session}
    → client_information io s ≡ ok (x, s')
    → s'.conn.state ≡ s.conn.state
unfolding client_information
client_information-keeps io s h =
    let (locale, s1, k1, h1) = after_read read_string s _ h in
    let (view_distance, s2, k2, h2) = after_read read_char s1 _ h1 in
    let (chat_mode, s3, k3, h3) = after_read read_char s2 _ h2 in
    let (chat_colors, s4, k4, h4) = after_read read_bool s3 _ h3 in
    let (skin_parts, s5, k5, h5) = after_read read_char s4 _ h4 in
    let (main_hand, s6, k6, h6) = after_read read_char s5 _ h5 in
    let (text_filtering, s7, k7, h7) = after_read read_bool s6 _ h6 in
    let (allow_server_listings, s8, k8, h8) = after_read read_bool s7 _ h7 in
    let (particles, s9, k9, h9) = after_read read_char s8 _ h8 in
    configure-keeps io s9 h9 ∙ k9 ∙ k8 ∙ k7 ∙ k6 ∙ k5 ∙ k4 ∙ k3 ∙ k2 ∙ k1

pub plugin_message-keeps :
    (io : Io) (s : Session) {x : List ℕ} {s' : Session}
    → plugin_message io s ≡ ok (x, s')
    → s'.conn.state ≡ s.conn.state
unfolding plugin_message brand
plugin_message-keeps io s h =
    let (channel, s1, k1, h1) = after_read read_string s _ h in
    elim (Bool-cases (same_string channel brand_channel)) [
      | inl same ↦
          let (name, s2, k2, h2) = after_read read_string s1 (λ a. ok ([], a.1)) (rw same at h1) in
          sym (ap (λ (t : Session). t.conn.state) (session_of h2)) ∙ k2 ∙ k1
      | inr other ↦ sym (ap (λ (t : Session). t.conn.state) (session_of (rw other at h1))) ∙ k1
    ]

pub ping_request-Step :
    (io : Io) (s : Session) {x : List ℕ} {s' : Session}
    → ping_request io s ≡ ok (x, s')
    → s'.conn.state ≡ handshake_state
unfolding ping_request set_state
ping_request-Step io s h =
    let (time, s1, k1, h1) = after_read read_long s _ h in
    let (taken, s2, k2, h2) = after_send (send_pong_response (io 0) time) s1 _ h1 in
    sym (ap (λ (t : Session). t.conn.state) (session_of h2))
