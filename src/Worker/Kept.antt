-- ===== src/Worker/Kept.antt =====
-- What the memory of a packet and the handler of a ping leave alone.
use mosss.Common.{
  ok_injective, refl, ℕ, ◌≡◌, ◌≢◌, sym, ap, subst, ◌∙◌, List, [], ◌++◌, arith, Result, ok,
  >>=-eq-ok, inl, inr,
}
use mosss.Memory.{Pointer, Memory}
use mosss.Memory.Holds.{Frame}
use mosss.Bytes.Order.{be_bytes}
use mosss.ReadBuffer.{Ivec, ReadBuffer, read_long}
use mosss.ReadBuffer.Stream.{AtSector}
use mosss.ReadBuffer.Numbers.{read_ulong-second}
use mosss.WriteBuffer.{WriteBuffer}
use mosss.WriteBuffer.Invariant.{Gathers, nothing}
use mosss.Clientbound.{send_pong_response}
use mosss.Connection.{ℤ}
use mosss.Worker.Session.{Io, Session, wbuf_now, on_rbuf, on_wbuf, set_state}
use mosss.Worker.Handlers.{ping_request}
use mosss.Worker.Ping.{Idle}

-- A buffer for answers that holds nothing does not care for the bytes of another block.
pub Idle-Frame :
    {m m' : Memory} {w : WriteBuffer} {free b lo hi : ℕ} (i : Idle m w free)
    → i.inv.layout.block ≢ b
    → Frame b lo hi m m'
    → (kept : Idle m' w free) × (kept.inv.layout.block ≡ i.inv.layout.block)
Idle-Frame {m' = m'} {w} i apart f =
    let l = i.inv.layout in
    (
      record {
        inv = record {
          layout = record {
            block = l.block;
            capacity = l.capacity;
            start = l.start;
            position = l.position;
            buf = l.buf;
            end = l.end;
            sector_start = l.sector_start;
            cursor = l.cursor;
            header = l.header;
            ordered = l.ordered;
            fits = l.fits;
            small = l.small;
            alive = f.alive l.block ∙ l.alive;
            size = f.size l.block ∙ l.size;
            known = omega (arith, f.next, l.known);
          };
          holds = tt;
          position = i.inv.position;
          pieces = subst (λ n. Gathers m' w.iov l.block l.start n []) (sym i.cursor) nothing;
          cursor_le = i.inv.cursor_le;
          packet_length = i.inv.packet_length;
          first = elim i.inv.first [
            | inl none_yet ↦ inl none_yet
            | inr p ↦ absurd (omega (arith, p.some_pieces, i.cursor))
          ];
        };
        free_le = i.free_le;
        cursor = i.cursor;
        slots = i.slots;
        stale = i.stale;
        listed = i.listed;
        long = i.long;
      },
      refl,
    )

abbrev pub second : Session → Ivec
second s = s.conn.rbuf.iv1

abbrev pub allowed : Session → ℤ
allowed s = s.conn.bytes_allowed

after_send :
    (call : WriteBuffer → Result (List ℕ × WriteBuffer)) (s : Session) (a : List ℕ × Session)
    → on_wbuf call s ≡ ok a
    → (second a.1 ≡ second s) × (allowed a.1 ≡ allowed s)
after_send call s a h =
    let ((z, w), _, e) = >>=-eq-ok (call (wbuf_now s)) _ h in
    let same = ok_injective e in
    (
      sym (ap (λ (t : List ℕ × Session). second t.1) same),
      sym (ap (λ (t : List ℕ × Session). allowed t.1) same),
    )

after_read_long :
    (s : Session) (a : ℕ × Session)
    → on_rbuf read_long s ≡ ok a
    → (r : ReadBuffer) × (read_long s.conn.rbuf ≡ ok (a.0, r))
      × (second a.1 ≡ r.iv1)
      × (allowed a.1 ≡ allowed s)
after_read_long s a h =
    let ((z, r), e, e1) = >>=-eq-ok (read_long s.conn.rbuf) _ h in
    let same = ok_injective e1 in
    (
      r,
      e ∙ ap (λ (t : ℕ × Session). ok (t.0, r)) same,
      sym (ap (λ (t : ℕ × Session). second t.1) same),
      sym (ap (λ (t : ℕ × Session). allowed t.1) same),
    )

-- What `ping_request` leaves alone.
pub ping_request-keeps :
    (stop : Pointer) (s : Session) (io : Io) (x : ℕ) (rest : List ℕ) (a : List ℕ × Session)
    → AtSector 0 stop s.conn.rbuf (be_bytes 8 x ++ rest)
    → ping_request io s ≡ ok a
    → (second a.1 ≡ second s) × (allowed a.1 ≡ allowed s)
unfolding ping_request set_state
ping_request-keeps stop s io x rest a at_sector h =
    let ((time, s1), e1, h1) = >>=-eq-ok (on_rbuf read_long s) _ h in
    let (r, e2, second1, allowed1) = after_read_long s (time, s1) e1 in
    let ((taken, s2), e3, h3) = >>=-eq-ok (on_wbuf (send_pong_response (io 0) time) s1) _ h1 in
    let (second2, allowed2) = after_send (send_pong_response (io 0) time) s1 (taken, s2) e3 in
    let same = ok_injective h3 in
    let kept =
      read_ulong-second stop s.conn.rbuf x time rest r at_sector (unfold read_long in e2) in
    (
      sym (ap (λ (t : List ℕ × Session). second t.1) same) ∙ second2 ∙ second1 ∙ kept,
      sym (ap (λ (t : List ℕ × Session). allowed t.1) same) ∙ allowed2 ∙ allowed1,
    )
