-- ===== src/Clientbound.antt =====
-- The packets that network/connection.cpp sends (`write_wbuf` and the `send_` functions), with the
-- ids of headers/network/clientbound_packet_ids.hpp. A function is given the results of the calls
-- of `writev` that it makes, `none` for -1, and returns the bytes that the kernel took; a list that
-- ends before the loop does is `no_fuel`. `Text` is a string: `c_str()` and `size()`.
pub mod Fields
pub mod Packets
pub mod Delivery
pub mod Splits
pub mod Rounds
pub mod Partial
pub mod Pong
pub mod Slots
pub mod Success
pub mod Runs
use mosss.Common.{
  ℕ, zero, suc, ◌+◌, ◌-◌, List, [], ◌∷◌, ◌++◌, Bool, ltb, leb, if◌then◌else◌, Result, ok, err,
  undefined, no_fuel, ◌>>=◌, Option, none, some, take,
}
use mosss.Memory.{Pointer, Memory, advance, update, load_bytes}
use mosss.ReadBuffer.{Uuid}
use mosss.WriteBuffer.{
  Iovec, WriteBuffer, first_iov, finalize, reset, write_byte, write_bool, write_long, write_string,
  write_uuid, write_varint,
}

pub record Text : Type 0 where
  pub start : Pointer
  pub size : ℕ

abbrev pub status_response_id : ℕ
status_response_id = 0x00

abbrev pub status_pong_response_id : ℕ
status_pong_response_id = 0x01

abbrev pub login_disconnect_id : ℕ
login_disconnect_id = 0x00

abbrev pub login_encryption_request_id : ℕ
login_encryption_request_id = 0x01

abbrev pub login_success_id : ℕ
login_success_id = 0x02

abbrev pub login_set_compression_id : ℕ
login_set_compression_id = 0x03

abbrev pub config_plugin_message_id : ℕ
config_plugin_message_id = 0x01

abbrev pub config_finish_id : ℕ
config_finish_id = 0x03

abbrev pub config_feature_flags_id : ℕ
config_feature_flags_id = 0x0c

-- The bytes of the `n` iovecs from `k` on.
unfoldable pub pending : Memory → (ℕ → Option Iovec) → ℕ → ℕ → Result (List ℕ)
pending m iov k zero = ok []
pending m iov k (suc n) = do
  vec ← first_iov (iov k)
  xs ← load_bytes m vec.iov_base vec.iov_len
  rest ← pending m iov (k + 1) n
  ok (xs ++ rest)

-- The loop over the iovecs that were written whole. The array has `left` elements from `k` on, and
-- the loop has no bound of its own.
unfoldable pub skip_written : ℕ → (ℕ → Option Iovec) → ℕ → ℕ → Result (ℕ × ℕ)
skip_written zero iov k res = err undefined
skip_written (suc left) iov k res = do
  vec ← first_iov (iov k)
  let more = skip_written left iov (k + 1) (res - vec.iov_len)
  if leb vec.iov_len res then more else ok (k, res)

-- The loop of `write_wbuf` at the iovec `k`.
unfoldable pub write_loop : List (Option ℕ) → ℕ → WriteBuffer → Result (List ℕ × WriteBuffer)
write_loop [] k w = if ltb k w.iov_cursor then err no_fuel else ok ([], w)
write_loop (none ∷ results) k w = ok ([], w)
write_loop (some res ∷ results) k w =
    let round = do
      bytes ← pending w.heap w.iov k (w.iov_cursor - k)
      (j, res1) ← skip_written (w.iov_size - k) w.iov k res
      vec ← first_iov (w.iov j)
      let vec1 : Iovec = record {
        iov_base = advance vec.iov_base res1;
        iov_len = vec.iov_len - res1;
      }
      (taken, w1) ← write_loop results j (record w { iov = update w.iov j (some vec1) })
      ok (take res bytes ++ taken, w1)
    in if ltb k w.iov_cursor then round else ok ([], w)

unfoldable pub write_wbuf : List (Option ℕ) → WriteBuffer → Result (List ℕ × WriteBuffer)
write_wbuf results w = do
  w1 ← finalize w
  (taken, w2) ← write_loop results 0 w1
  ok (taken, reset w2)

unfoldable pub status_response : Text → WriteBuffer → Result WriteBuffer
status_response response w =
    write_byte status_response_id w >>= write_string response.start response.size

unfoldable pub send_status_response :
    List (Option ℕ) → Text → WriteBuffer → Result (List ℕ × WriteBuffer)
send_status_response results response w = status_response response w >>= write_wbuf results

unfoldable pub pong_response : ℕ → WriteBuffer → Result WriteBuffer
pong_response timestamp w = write_byte status_pong_response_id w >>= write_long timestamp

unfoldable pub send_pong_response :
    List (Option ℕ) → ℕ → WriteBuffer → Result (List ℕ × WriteBuffer)
send_pong_response results timestamp w = pong_response timestamp w >>= write_wbuf results

unfoldable pub disconnect_login : Text → WriteBuffer → Result WriteBuffer
disconnect_login reason w =
    write_byte login_disconnect_id w >>= write_string reason.start reason.size

unfoldable pub send_disconnect_login :
    List (Option ℕ) → Text → WriteBuffer → Result (List ℕ × WriteBuffer)
send_disconnect_login results reason w = disconnect_login reason w >>= write_wbuf results

unfoldable pub encryption_request : Text → Text → Text → Bool → WriteBuffer → Result WriteBuffer
encryption_request server_id key token verify w =
    write_byte login_encryption_request_id w
    >>= write_string server_id.start server_id.size
    >>= write_string key.start key.size
    >>= write_string token.start token.size
    >>= write_bool verify

unfoldable pub send_encryption_request :
    List (Option ℕ) → Text → Text → Text → Bool → WriteBuffer → Result (List ℕ × WriteBuffer)
send_encryption_request results server_id key token verify w =
    encryption_request server_id key token verify w >>= write_wbuf results

unfoldable pub login_success : Uuid → Text → Text → WriteBuffer → Result WriteBuffer
login_success uuid username property w =
    write_byte login_success_id w
    >>= write_uuid uuid
    >>= write_string username.start username.size
    >>= write_string property.start property.size

unfoldable pub send_login_success :
    List (Option ℕ) → Uuid → Text → Text → WriteBuffer → Result (List ℕ × WriteBuffer)
send_login_success results uuid username property w =
    login_success uuid username property w >>= write_wbuf results

unfoldable pub set_compression : ℕ → WriteBuffer → Result WriteBuffer
set_compression size w = write_byte login_set_compression_id w >>= write_varint size

unfoldable pub send_set_compression :
    List (Option ℕ) → ℕ → WriteBuffer → Result (List ℕ × WriteBuffer)
send_set_compression results size w = set_compression size w >>= write_wbuf results

-- `send_cookie_request_config` has an empty body.
unfoldable pub send_cookie_request_config : Text → WriteBuffer → Result WriteBuffer
send_cookie_request_config identifier w = ok w

unfoldable pub plugin_message_config : Text → Text → WriteBuffer → Result WriteBuffer
plugin_message_config channel payload w =
    write_byte config_plugin_message_id w
    >>= write_string channel.start channel.size
    >>= write_string payload.start payload.size

unfoldable pub send_plugin_message_config :
    List (Option ℕ) → Text → Text → WriteBuffer → Result (List ℕ × WriteBuffer)
send_plugin_message_config results channel payload w =
    plugin_message_config channel payload w >>= write_wbuf results

unfoldable pub finish_config : WriteBuffer → Result WriteBuffer
finish_config w = write_byte config_finish_id w

unfoldable pub send_finish_config : List (Option ℕ) → WriteBuffer → Result (List ℕ × WriteBuffer)
send_finish_config results w = finish_config w >>= write_wbuf results

-- The loop over the flags that are left.
unfoldable pub write_flags : List Text → WriteBuffer → Result WriteBuffer
write_flags [] w = ok w
write_flags (flag ∷ flags) w = write_string flag.start flag.size w >>= write_flags flags

-- `len` is the number of the flags.
unfoldable pub feature_flags : ℕ → List Text → WriteBuffer → Result WriteBuffer
feature_flags len flags w =
    write_byte config_feature_flags_id w >>= write_varint len >>= write_flags flags

unfoldable pub send_feature_flags :
    List (Option ℕ) → ℕ → List Text → WriteBuffer → Result (List ℕ × WriteBuffer)
send_feature_flags results len flags w = feature_flags len flags w >>= write_wbuf results
