-- ===== src/Worker/Login.antt =====
-- `login_start` and the packet that answers it.
use mosss.Common.{
  ℕ, ◌≤◌, ◌≡◌, ◌≢◌, sym, ap, subst, ◌∙◌, List, [], ◌∷◌, ◌++◌, length, arith, some, Result, ok, inl,
  inr,
}
use mosss.Memory.{Memory, Block, place}
use mosss.Memory.Place.{place_lem}
use mosss.Varint.{varint}
use mosss.ReadBuffer.{Uuid}
use mosss.WriteBuffer.{WriteBuffer}
use mosss.WriteBuffer.Invariant.{Inv, nothing, Gathers, room}
use mosss.Clientbound.Fields.{fields_bytes, byte, uuid, text}
use mosss.Connection.{State}
use mosss.Worker.Session.{Session, Player, wbuf_now}

-- A buffer for answers that lists nothing, beside the memory `m`, with `free` bytes of room.
pub record Clean (m : Memory) (w : WriteBuffer) (free : ℕ) : Type 0 where
  pub inv : Inv (record w { heap = m }) [] []
  pub free_le : free ≤ room inv
  pub idle : w.iov_cursor ≡ 0

-- A new string leaves it as it was.
module _ {m : Memory} {w : WriteBuffer} {free : ℕ} (c : Clean m w free) (xs : List ℕ) where
  open c.inv.layout use {block, capacity, start, position}

  old : block ≢ m.next
  old e = absurd (omega (arith, c.inv.layout.known))

  same : (place m xs).block block ≡ m.block block
  same = (place_lem m xs).1 block old

  placed-Clean : Clean (place m xs) w free
  placed-Clean =
      let l = c.inv.layout in
      record {
        inv = record {
          layout = record {
            block = block;
            capacity = capacity;
            start = start;
            position = position;
            buf = l.buf;
            end = l.end;
            sector_start = l.sector_start;
            cursor = l.cursor;
            header = l.header;
            ordered = l.ordered;
            fits = l.fits;
            small = l.small;
            alive = ap (λ (b : Block). b.alive) same ∙ l.alive;
            size = ap (λ (b : Block). b.size) same ∙ l.size;
            known = unfold place in omega (arith, l.known);
          };
          holds = tt;
          position = c.inv.position;
          pieces = subst (λ n. Gathers (place m xs) w.iov block start n []) (sym c.idle) nothing;
          cursor_le = c.inv.cursor_le;
          packet_length = c.inv.packet_length;
          first = elim c.inv.first [
            | inl none_yet ↦ inl none_yet
            | inr f ↦ absurd (omega (arith, f.some_pieces, c.idle))
          ];
        };
        free_le = c.free_le;
        idle = c.idle;
      }

-- The packet `login_success` with an empty property, its length in front.
abbrev pub welcome : Uuid → List ℕ → List ℕ
welcome u name =
    let bytes = fields_bytes (byte 2 ∷ uuid u.most u.least ∷ text name ∷ text [] ∷ []) in
    varint (length bytes) ++ bytes

-- `result` is a normal return with `packet` sent, in the state `state` and with the player `player`.
pub record Welcomed (result : Result (List ℕ × Session)) (packet : List ℕ) (state : State)
    (player : Player) : Type 0 where
  pub after : Session
  pub returns : result ≡ ok (packet, after)
  pub handle : after.handle ≡ some player
  pub same_state : after.conn.state ≡ state
  pub reusable : Inv (wbuf_now after) [] []
