-- ===== src/Clientbound/Packets.antt =====
-- The layout of each packet that the server sends.
use mosss.Common.{
  ℕ, ◌+◌, ◌^◌, ◌≤◌, ◌<◌, List, [], ◌∷◌, ◌++◌, length, arith, Bool, ◌>>=◌, length-append, >>=_assoc,
  >>=_ok, Result, ◌*◌, subst, sym,
}
use mosss.Bytes.Order.{length-be_bytes}
use mosss.Varint.{varint, length-varint}
use mosss.ReadBuffer.{Uuid}
use mosss.WriteBuffer.{WriteBuffer, finalize, write_string}
use mosss.WriteBuffer.Invariant.{Inv, room}
use mosss.WriteBuffer.Pieces.{Sent}
use mosss.WriteBuffer.Frame.{Framed}
use mosss.Clientbound.{
  Text, status_response, pong_response, disconnect_login, encryption_request, login_success,
  set_compression, plugin_message_config, finish_config, write_flags, feature_flags,
}
use mosss.Clientbound.Fields.{
  Field, byte, boolean, number, long, uuid, text, fields_bytes, append_fields, field_bytes,
  Sent-most, Given, begin-byte, then_long, then_bool, then_uuid, then_varint, then_text, then_frame,
}

prefixed-length : (xs : List ℕ) → length (varint (length xs) ++ xs) ≤ 5 + length xs
prefixed-length xs =
    omega (arith, length-append (varint (length xs)) xs, (length-varint (length xs)).1)

prefixed-length-append :
    (xs ys : List ℕ)
    → length (varint (length xs) ++ xs ++ (varint (length ys) ++ ys)) ≤ 10 + length xs + length ys
prefixed-length-append xs ys = omega (
  arith,
  length-append (varint (length xs) ++ xs) (varint (length ys) ++ ys),
  prefixed-length xs,
  prefixed-length ys,
)

-- From an empty buffer with room for 11 bytes, where the strings have fewer than 2 ^ 31 - 20
-- characters together, the writes of `status_response`, `pong_response`, `disconnect_login`,
-- `set_compression` of a size below 2 ^ 31, `plugin_message_config` and `finish_config` are framed
-- by `iov()` as the length of the packet, its id and its fields.
small_packets-Framed :
    {w : WriteBuffer} (i : Inv w [] []) (s t : Text) (xs ys : List ℕ) (x y : ℕ)
    → Given i s xs
    → Given i t ys
    → 11 ≤ room i
    → length xs + length ys + 20 < 2 ^ 31
    → y < 2 ^ 31
    → Framed i (status_response s w >>= finalize) (fields_bytes (byte 0 ∷ text xs ∷ []))
      × Framed i (pong_response x w >>= finalize) (fields_bytes (byte 1 ∷ long x ∷ []))
      × Framed i (disconnect_login s w >>= finalize) (fields_bytes (byte 0 ∷ text xs ∷ []))
      × Framed i (set_compression y w >>= finalize) (fields_bytes (byte 3 ∷ number y ∷ []))
      × Framed i
          (plugin_message_config s t w >>= finalize)
          (fields_bytes (byte 1 ∷ text xs ∷ text ys ∷ []))
      × Framed i (finish_config w >>= finalize) (fields_bytes (byte 3 ∷ []))
unfolding status_response pong_response disconnect_login set_compression plugin_message_config
    finish_config
small_packets-Framed {w} i s t xs ys x y gx gy h short small =
    let fx = prefixed-length xs in
    let fy = prefixed-length ys in
    let zero_ = begin-byte i 0 (omega arith) (omega arith) in
    let one = begin-byte i 1 (omega arith) (omega arith) in
    let three = begin-byte i 3 (omega arith) (omega arith) in
    (
      then_frame (then_text zero_ s xs gx (omega arith)) (omega arith) (omega (arith, fx)),
      then_frame (then_long one x (omega arith)) (omega arith) (omega (arith, length-be_bytes 8 x)),
      then_frame (then_text zero_ s xs gx (omega arith)) (omega arith) (omega (arith, fx)),
      then_frame (then_varint three y small (omega arith)) (omega arith)
          (omega (arith, (length-varint y).1)),
      then_frame (then_text (then_text one s xs gx (omega arith)) t ys gy (omega arith))
          (omega (arith, prefixed-length-append xs ys))
          (omega (arith, prefixed-length-append xs ys)),
      then_frame three (omega arith) (omega arith),
    )

-- From an empty buffer with room for 27 bytes, the writes of `login_success` are framed by `iov()`
-- as the length of the packet and then its id, the identifier, and the two strings, each behind
-- its length.
pub login_success-Framed :
    {w : WriteBuffer} (i : Inv w [] []) (u : Uuid) (username property : Text) (xs ys : List ℕ)
    → Given i username xs
    → Given i property ys
    → 27 ≤ room i
    → length (fields_bytes (byte 2 ∷ uuid u.most u.least ∷ text xs ∷ text ys ∷ [])) < 2 ^ 31
    → Framed i
        (login_success u username property w >>= finalize)
        (fields_bytes (byte 2 ∷ uuid u.most u.least ∷ text xs ∷ text ys ∷ []))
unfolding login_success
login_success-Framed {w} i u username property xs ys gx gy h small =
    let one = begin-byte i 2 (omega arith) (omega arith) in
    let two = then_uuid one u (omega arith) in
    let three = then_text two username xs gx (omega arith) in
    let four = then_text three property ys gy (omega arith) in then_frame four (omega arith) small

-- From an empty buffer with room for 17 bytes, the writes of `encryption_request` are framed by
-- `iov()` as the length of the packet and then its id, the three strings, each behind its length,
-- and the flag.
encryption_request-Framed :
    {w : WriteBuffer} (i : Inv w [] []) (server_id key token : Text) (verify : Bool)
    (xs ys zs : List ℕ)
    → Given i server_id xs
    → Given i key ys
    → Given i token zs
    → 17 ≤ room i
    → length (fields_bytes (byte 1 ∷ text xs ∷ text ys ∷ text zs ∷ boolean verify ∷ [])) < 2 ^ 31
    → Framed i
        (encryption_request server_id key token verify w >>= finalize)
        (fields_bytes (byte 1 ∷ text xs ∷ text ys ∷ text zs ∷ boolean verify ∷ []))
unfolding encryption_request
encryption_request-Framed {w} i server_id key token verify xs ys zs gx gy gz h small =
    let one = begin-byte i 1 (omega arith) (omega arith) in
    let two = then_text one server_id xs gx (omega arith) in
    let three = then_text two key ys gy (omega arith) in
    let four = then_text three token zs gz (omega arith) in
    let five = then_bool four verify (omega arith) in then_frame five (omega arith) small

-- The flags that are left.
abbrev texts : List (List ℕ) → List Field
texts [] = []
texts (xs ∷ xss) = text xs ∷ texts xss

-- One `Given` for each flag.
data AllGiven {w : WriteBuffer} (i : Inv w [] []) : List Text → List (List ℕ) → Type 0 where
  none_left : AllGiven i [] []
  more :
      {t : Text} {ts : List Text} {xs : List ℕ} {xss : List (List ℕ)}
      → Given i t xs
      → AllGiven i ts xss
      → AllGiven i (t ∷ ts) (xs ∷ xss)

write_flags_lem :
    {w : WriteBuffer} {i : Inv w [] []} (ts : List Text) (xss : List (List ℕ))
    → AllGiven i ts xss
    → (n : ℕ) (r : Result WriteBuffer) (bytes : List ℕ) → Sent i n r bytes
    → n + 5 * length xss ≤ room i
    → Sent i (n + 5 * length xss) (r >>= write_flags ts) (append_fields bytes (texts xss))
unfolding write_flags
write_flags_lem {i = i} [] [] none_left n r bytes a h =
    Sent-most {n = n} (n + 5 * 0) (omega arith) (subst (λ q. Sent i n q bytes) (sym (>>=_ok r)) a)
write_flags_lem [] (xs ∷ xss) gs n r bytes a h = elim gs [ ]
write_flags_lem (t ∷ ts) [] gs n r bytes a h = elim gs [ ]
write_flags_lem {i = i} (t ∷ ts) (xs ∷ xss) (more g gs) n r bytes a h =
    let rest =
      write_flags_lem ts xss gs (n + 5) (r >>= write_string t.start t.size)
        (bytes ++ field_bytes (text xs)) (then_text a t xs g (omega arith)) (omega arith) in
    Sent-most {n = n + 5 + 5 * length xss} (n + 5 * length (xs ∷ xss)) (omega arith) (
      subst
        (λ q.
          Sent i (n + 5 + 5 * length xss) q
            (append_fields (bytes ++ field_bytes (text xs)) (texts xss)))
        (>>=_assoc r (write_string t.start t.size) (write_flags ts)) rest)

append_fields-positive :
    (bytes : List ℕ) (fields : List Field)
    → 0 < length bytes
    → 0 < length (append_fields bytes fields)
append_fields-positive bytes [] h = h
append_fields-positive bytes (field ∷ fields) h =
    append_fields-positive (bytes ++ field_bytes field) fields
      (omega (arith, length-append bytes (field_bytes field)))

-- From an empty buffer with room for the id and five bytes for each number, the writes of
-- `feature_flags` are framed by `iov()` as the length of the packet and then its id, the number of
-- the flags, and the flags, each behind its length.
feature_flags-Framed :
    {w : WriteBuffer} (i : Inv w [] []) (ts : List Text) (xss : List (List ℕ))
    → AllGiven i ts xss
    → 6 + 5 * length xss ≤ room i
    → length xss < 2 ^ 31
    → length (fields_bytes (byte 12 ∷ number (length xss) ∷ texts xss)) < 2 ^ 31
    → Framed i
        (feature_flags (length xss) ts w >>= finalize)
        (fields_bytes (byte 12 ∷ number (length xss) ∷ texts xss))
unfolding feature_flags
feature_flags-Framed {w} i ts xss given h count small =
    let one = begin-byte i 12 (omega arith) (omega arith) in
    let two = then_varint one (length xss) count (omega arith) in
    then_frame (write_flags_lem ts xss given _ _ _ two (omega arith))
      (append_fields-positive (12 ∷ varint (length xss)) (texts xss) (omega arith)) small
