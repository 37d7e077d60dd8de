-- ===== src/Worker/Handlers.antt =====
-- The handlers of network/worker.cpp that do something.
use mosss.Common.{ℕ, List, [], ◌∷◌, ◌++◌, Bool, true, false, ◌==◌, ◌&&◌, if◌then◌else◌, ok, ◌>>=◌}
use mosss.ReadBuffer.{
  read_char, read_bool, read_varint, read_string, read_ushort, read_long, read_uuid,
}
use mosss.Clientbound.{
  send_status_response, send_pong_response, send_login_success, send_plugin_message_config,
  send_feature_flags, send_finish_config,
}
use mosss.Connection.{handshake_state, status_state, login_state, config_state, play_state}
use mosss.Worker.Session.{
  PacketParser, on_rbuf, on_wbuf, new_string, string_at, set_state, init_player,
}

unfoldable pub handshake : PacketParser
unfolding set_state
handshake io s = do
  (pvn, s1) ← on_rbuf read_varint s
  (ip, s2) ← on_rbuf read_string s1
  (port, s3) ← on_rbuf read_ushort s2
  (next_state, s4) ← on_rbuf read_varint s3
  ok (
    [],
    if next_state == 1
        then set_state status_state s4
        else if next_state == 2
        then set_state login_state s4
        else s4,
  )

-- {"version":{"name":"1.21.4","protocol":769},"enforcesSecureC…
unfoldable pub status_json : List ℕ
status_json =
    b'{' ∷ 0x22 ∷ b'v' ∷ b'e' ∷ b'r' ∷ b's' ∷ b'i' ∷ b'o' ∷ b'n' ∷ 0x22 ∷ b':' ∷ b'{' ∷ 0x22 ∷ b'n'
    ∷ b'a' ∷ b'm' ∷ b'e' ∷ 0x22 ∷ b':' ∷ 0x22 ∷ b'1' ∷ b'.' ∷ b'2' ∷ b'1' ∷ b'.' ∷ b'4' ∷ 0x22
    ∷ b',' ∷ 0x22 ∷ b'p' ∷ b'r' ∷ b'o' ∷ b't' ∷ b'o' ∷ b'c' ∷ b'o' ∷ b'l' ∷ 0x22 ∷ b':' ∷ b'7'
    ∷ b'6' ∷ b'9' ∷ b'}' ∷ b',' ∷ 0x22 ∷ b'e' ∷ b'n' ∷ b'f' ∷ b'o' ∷ b'r' ∷ b'c' ∷ b'e' ∷ b's'
    ∷ b'S' ∷ b'e' ∷ b'c' ∷ b'u' ∷ b'r' ∷ b'e' ∷ b'C' ∷ b'h' ∷ b'a' ∷ b't' ∷ 0x22 ∷ b':' ∷ b't'
    ∷ b'r' ∷ b'u' ∷ b'e' ∷ b',' ∷ 0x22 ∷ b'd' ∷ b'e' ∷ b's' ∷ b'c' ∷ b'r' ∷ b'i' ∷ b'p' ∷ b't'
    ∷ b'i' ∷ b'o' ∷ b'n' ∷ 0x22 ∷ b':' ∷ 0x22 ∷ b'A' ∷ b' ' ∷ b'M' ∷ b'i' ∷ b'n' ∷ b'e' ∷ b'c'
    ∷ b'r' ∷ b'a' ∷ b'f' ∷ b't' ∷ b' ' ∷ b'S' ∷ b'e' ∷ b'r' ∷ b'v' ∷ b'e' ∷ b'r' ∷ 0x22 ∷ b','
    ∷ 0x22 ∷ b'p' ∷ b'l' ∷ b'a' ∷ b'y' ∷ b'e' ∷ b'r' ∷ b's' ∷ 0x22 ∷ b':' ∷ b'{' ∷ 0x22 ∷ b'm'
    ∷ b'a' ∷ b'x' ∷ 0x22 ∷ b':' ∷ b'2' ∷ b'0' ∷ b',' ∷ 0x22 ∷ b'o' ∷ b'n' ∷ b'l' ∷ b'i' ∷ b'n'
    ∷ b'e' ∷ 0x22 ∷ b':' ∷ b'0' ∷ b'}' ∷ b'}' ∷ []

unfoldable pub status_request : PacketParser
status_request io s =
    on_wbuf (send_status_response (io 0) (string_at status_json s)) (new_string status_json s)

unfoldable pub ping_request : PacketParser
unfolding set_state
ping_request io s = do
  (time, s1) ← on_rbuf read_long s
  (taken, s2) ← on_wbuf (send_pong_response (io 0) time) s1
  ok (taken, set_state handshake_state s2)

-- `player()->username()` is the string that the player holds, and the property is empty.
unfoldable pub login_start : PacketParser
unfolding init_player
login_start io s = do
  (username, s1) ← on_rbuf read_string s
  (uuid, s2) ← on_rbuf read_uuid s1
  let s3 = init_player username uuid s2
  let s4 = new_string username s3
  on_wbuf (send_login_success (io 0) uuid (string_at username s3) (string_at [] s4))
      (new_string [] s4)

unfoldable pub encryption_response : PacketParser
encryption_response io s = do
  (secret, s1) ← on_rbuf read_string s
  (token, s2) ← on_rbuf read_string s1
  ok ([], s2)

-- A handler that only logs, or has an empty body.
unfoldable pub ignored : PacketParser
ignored io s = ok ([], s)

unfoldable pub login_acknowledged : PacketParser
unfolding set_state
login_acknowledged io s = ok ([], set_state config_state s)

abbrev pub brand_channel : List ℕ
brand_channel =
    b'm' ∷ b'i' ∷ b'n' ∷ b'e' ∷ b'c' ∷ b'r' ∷ b'a' ∷ b'f' ∷ b't' ∷ b':' ∷ b'b' ∷ b'r' ∷ b'a' ∷ b'n'
    ∷ b'd' ∷ []

abbrev pub clams : List ℕ
clams = b'C' ∷ b'L' ∷ b'A' ∷ b'M' ∷ b'S' ∷ []

abbrev pub vanilla : List ℕ
vanilla =
    b'm' ∷ b'i' ∷ b'n' ∷ b'e' ∷ b'c' ∷ b'r' ∷ b'a' ∷ b'f' ∷ b't' ∷ b':' ∷ b'v' ∷ b'a' ∷ b'n' ∷ b'i'
    ∷ b'l' ∷ b'l' ∷ b'a' ∷ []

-- The three packets that `client_information` sends.
unfoldable pub configure : PacketParser
configure io s = do
  let s1 = new_string brand_channel s
  let s2 = new_string clams s1
  (taken1, s3) ←
      on_wbuf (send_plugin_message_config (io 0) (string_at brand_channel s) (string_at clams s1))
        s2
  let s4 = new_string vanilla s3
  (taken2, s5) ← on_wbuf (send_feature_flags (io 1) 1 (string_at vanilla s3 ∷ [])) s4
  (taken3, s6) ← on_wbuf (send_finish_config (io 2)) s5
  ok (taken1 ++ taken2 ++ taken3, s6)

unfoldable pub client_information : PacketParser
client_information io s = do
  (locale, s1) ← on_rbuf read_string s
  (view_distance, s2) ← on_rbuf read_char s1
  (chat_mode, s3) ← on_rbuf read_char s2
  (chat_colors, s4) ← on_rbuf read_bool s3
  (skin_parts, s5) ← on_rbuf read_char s4
  (main_hand, s6) ← on_rbuf read_char s5
  (text_filtering, s7) ← on_rbuf read_bool s6
  (allow_server_listings, s8) ← on_rbuf read_bool s7
  (particles, s9) ← on_rbuf read_char s8
  configure io s9

unfoldable pub brand : PacketParser
brand io s = do (brand_name, s1) ← on_rbuf read_string s; ok ([], s1)

abbrev pub same_string : List ℕ → List ℕ → Bool
same_string [] [] = true
same_string [] (y ∷ ys) = false
same_string (x ∷ xs) [] = false
same_string (x ∷ xs) (y ∷ ys) = x == y && same_string xs ys

-- `channel_handlers.find(channel)`; the map has one entry.
unfoldable pub plugin_message : PacketParser
unfolding brand
plugin_message io s = do
  (channel, s1) ← on_rbuf read_string s
  if same_string channel brand_channel then brand io s1 else ok ([], s1)

unfoldable pub acknowledge_finish_config : PacketParser
unfolding set_state
acknowledge_finish_config io s = ok ([], set_state play_state s)
