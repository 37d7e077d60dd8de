-- ===== src/Wire/Trip.antt =====
-- From one `WriteBuffer` to the `ReadBuffer` of a connection.
use mosss.Common.{
  ℕ, ◌≤◌, ◌≡◌, refl, sym, ap, subst, ◌∙◌, List, [], ◌∷◌, ◌++◌, length, length-append, append_assoc,
  append-nil, arith, All, All-append, All-front, Result, ok, true, ◌>>=◌,
}
use mosss.Bytes.Order.{IsByte}
use mosss.Varint.{varint, varint-IsByte, length-varint, decode-varint}
use mosss.ReadBuffer.{ReadBuffer, nth_ivec}
use mosss.ReadBuffer.Stream.{Sector, AtSector}
use mosss.WriteBuffer.{WriteBuffer, finalize}
use mosss.WriteBuffer.Invariant.{Inv, room}
use mosss.WriteBuffer.Frame.{gather, Framed}
use mosss.Connection.{Connection, ready}
use mosss.Connection.Receive.{Fresh}
use mosss.Connection.Split.{joined, process_all, process_all-Collected}
use mosss.Clientbound.Fields.{Field}
use mosss.Wire.{kinds, flat, read_fields}
use mosss.Wire.Reads.{InRange, flat-IsByte, read_fields-flat}
use mosss.Wire.Items.{Stand, costs}
use mosss.Wire.Packets.{Packet, layout, write_packet, write_packet-Framed}

-- The bytes that are sent after `written` are those of `events`; the connection `c`, which receives
-- these, is then ready, and its reads give `fields`.
pub record Trip (written : Result WriteBuffer) (events : List (List ℕ)) (c : Connection)
    (fields : List Field) : Type 0 where
  pub sender : WriteBuffer
  pub writes : written ≡ ok sender
  pub sends : gather sender.heap sender.iov sender.iov_cursor ≡ ok (joined events)
  pub receiver : Connection
  pub receives : process_all events c ≡ ok receiver
  pub complete : ready receiver ≡ true
  pub state : receiver.state ≡ c.state
  pub reader : ReadBuffer
  pub reads : read_fields (kinds fields) receiver.rbuf ≡ ok (fields, reader)
  pub nothing_left : AtSector 0 receiver.rbuf.iv0.end reader []

at_fields :
    (r : ReadBuffer) (bytes : List ℕ)
    → r.cursor_index ≡ 0
    → Sector r.heap r.iv0 bytes
    → AtSector 0 r.iv0.end r (bytes ++ [])
at_fields r bytes first s = record {
  iv = r.iv0;
  index = first;
  at_cursor = ap (λ n. nth_ivec n r) first;
  stops = refl;
  sector = subst (Sector r.heap r.iv0) (sym (append-nil bytes)) s;
}

Framed-Trip :
    {w : WriteBuffer} {i : Inv w [] []} {written : Result WriteBuffer} (fields : List Field)
    (c : Connection) (b : ℕ) (front : List ℕ) (pieces : List (List ℕ))
    → Framed i written (flat fields)
    → All InRange fields
    → length (flat fields) ≤ 1019
    → Fresh c b
    → c.rbuf.cursor_index ≡ 0
    → front ++ joined pieces ≡ flat fields
    → Trip written ((varint (length (flat fields)) ++ front) ∷ pieces) c fields
Framed-Trip fields c b front pieces framed ranges few fresh first whole =
    let n = length (flat fields) in
    let lead = length-varint n in
    let parts = length-append (varint n) front in
    let total : length (front ++ joined pieces) ≡ n = ap length whole in
    let both = length-append front (joined pieces) in
    let front_bytes : All IsByte front =
      All-front IsByte front (joined pieces)
        (subst (All IsByte) (sym whole) (flat-IsByte fields ranges)) in
    let m =
      process_all-Collected c b (varint n ++ front) front n pieces fresh
        (All-append IsByte (varint n) front (varint-IsByte n (omega arith)) front_bytes)
        (decode-varint n front (omega arith)) (omega (arith, parts)) (omega (arith, parts, lead.1))
        (omega (arith, total)) in
    let got = subst (Sector m.after.rbuf.heap m.after.rbuf.iv0) whole m.partial.sector in
    let view = at_fields m.after.rbuf (flat fields) (m.index ∙ first) got in
    let reads = read_fields-flat 0 m.after.rbuf.iv0.end m.after.rbuf fields [] ranges tt view in
    record {
      sender = framed.after;
      writes = framed.returns;
      sends =
          framed.sends
          ∙ ap ok (
              ap (λ bytes. varint n ++ bytes) (sym whole)
              ∙ sym (append_assoc (varint n) front (joined pieces)));
      receiver = m.after;
      receives = m.returns;
      complete = m.complete ∙ ground (arith, total);
      state = m.state;
      reader = reads.after;
      reads = reads.returns;
      nothing_left = reads.view;
    }

-- Each of the nine packets that the server sends, from an empty buffer that has room for what is
-- not a string, is framed by `iov()`, and where its bytes come in, in one event or more, at a
-- connection that waits for a packet, this is ready, and the reads of the same kinds give back the
-- id and the fields and leave nothing. This is so where these have at most 1019 bytes, are in range
-- and not negative, and the whole length of the packet is in the first event.
pub write_packet-Trip :
    {w : WriteBuffer} (i : Inv w [] []) (p : Packet) (fields : List Field) (c : Connection) (b : ℕ)
    (front : List ℕ) (pieces : List (List ℕ))
    → Stand i (layout p) fields
    → All InRange fields
    → costs (layout p) ≤ room i
    → length (flat fields) ≤ 1019
    → Fresh c b
    → c.rbuf.cursor_index ≡ 0
    → front ++ joined pieces ≡ flat fields
    → Trip
        (write_packet p w >>= finalize)
        ((varint (length (flat fields)) ++ front) ∷ pieces)
        c
        fields
write_packet-Trip i p fields c b front pieces s ranges fits few fresh first whole =
    Framed-Trip fields c b front pieces (write_packet-Framed i p fields s fits (omega arith)) ranges
      few fresh first whole
