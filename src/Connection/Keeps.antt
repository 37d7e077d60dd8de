-- ===== src/Connection/Keeps.antt =====
-- The calls that receive leave the state of the connection as it is.
use mosss.Common.{
  ℕ, ◌≡◌, refl, subst, List, length, Result, Error, undefined, ◌-◌, ◌^◌, ◌&&◌, suc, ok, err, Option,
  some, none, Bool, true, false, ltb, if◌then◌else◌, ◌>>=◌, ◌==◌,
}
use mosss.Memory.{advance, retreat, store_bytes, distance, copy_bytes}
use mosss.ReadBuffer.{read_length, minus_one, make_secondary, feed, total_packet_length}
use mosss.Connection.{
  pos, negsuc, ◌-ℤ◌, leb_ℤ, signed_32, primary_buffer_size, Connection, State, Recv, failed, closed,
  received, resolve_length_handler, transition_to_secondary_handler, copy_to_buffer_handler,
  write_position, take_in, copy_to_buffer, transition_to_secondary, resolve_length, process,
  run_handler, reset,
}

-- Every value that `r` returns has the property `P`.
pub data Ensures {A : Type 0} (P : A → Type 0) : Result A → Type 0 where
  fails : {e : Error} → Ensures P (err e)
  returns : {a : A} → P a → Ensures P (ok a)

then_any :
    {A B : Type 0} {P : B → Type 0} (r : Result A) {k : A → Result B}
    → ((a : A) → Ensures P (k a))
    → Ensures P (r >>= k)
then_any (ok a) h = h a
then_any (err e) h = fails

then_if :
    {A : Type 0} {P : A → Type 0} (test : Bool) {x y : Result A}
    → Ensures P x
    → Ensures P y
    → Ensures P (if test then x else y)
then_if true hx hy = hx
then_if false hx hy = hy

pub value : {A : Type 0} {P : A → Type 0} {r : Result A} {a : A} → r ≡ ok a → Ensures P r → P a
value {P = P} {a = a} h fails = absurd cc
value {P = P} {a = a} h (returns {a = b} p) = let same : b ≡ a = cc in subst P same p

-- Where the connection is still there, it is in the state `state`.
abbrev pub In : State → Option Connection → Type 0
In state none = Unit
In state (some c) = c.state ≡ state

take_in-keeps :
    (bytes : List ℕ) (c : Connection) {c1 : Connection}
    → take_in bytes c ≡ ok c1
    → c1.state ≡ c.state
unfolding take_in
take_in-keeps bytes c h =
    value {P = λ (c1 : Connection). c1.state ≡ c.state} h
      (then_any (store_bytes c.rbuf.heap (write_position c) bytes) λ m. returns refl)

after_take_in :
    (bytes : List ℕ) (c : Connection) {k : Connection → Result (Option Connection)}
    → ((c1 : Connection) → c1.state ≡ c.state → Ensures (In c.state) (k c1))
    → Ensures (In c.state) (take_in bytes c >>= k)
after_take_in bytes c {k} h = go (take_in bytes c) refl
  where
    go : (r : Result Connection) → take_in bytes c ≡ r → Ensures (In c.state) (r >>= k)
    go (ok c1) e = h c1 (take_in-keeps bytes c e)
    go (err x) e = fails

copy_to_buffer-In : (r : Recv) (c : Connection) → Ensures (In c.state) (copy_to_buffer r c)
unfolding copy_to_buffer
copy_to_buffer-In failed c = returns tt
copy_to_buffer-In closed c = returns tt
copy_to_buffer-In (received bytes) c = after_take_in bytes c λ c1 h. returns h

transition_to_secondary-In :
    (r : Recv) (c : Connection) → Ensures (In c.state) (transition_to_secondary r c)
unfolding transition_to_secondary
transition_to_secondary-In failed c = returns tt
transition_to_secondary-In closed c = returns tt
transition_to_secondary-In (received bytes) c = after_take_in bytes c λ c1 h.
    then_if (leb_ℤ c1.bytes_allowed (length bytes))
      (then_any (total_packet_length c1.rbuf) λ total.
        then_any
          (elim (signed_32 total -ℤ primary_buffer_size) [
            | pos n ↦ ok (make_secondary c1.rbuf n)
            | negsuc n ↦ err undefined
          ])
          λ rbuf. returns h)
      (returns h)

resolve_length-In : (r : Recv) (c : Connection) → Ensures (In c.state) (resolve_length r c)
unfolding resolve_length
resolve_length-In failed c = returns tt
resolve_length-In closed c = returns tt
resolve_length-In (received bytes) c = after_take_in bytes c λ c1 h.
    then_any (read_length c1.rbuf) λ a. then_if (a.0 == minus_one) (returns h) (
      then_if (ltb a.0 (2 ^ 31) && ltb (primary_buffer_size - a.1.sizeof_length) a.0) (returns h) (
        then_any (total_packet_length a.1) λ total.
          then_any
            (distance
              (write_position
                (record c1 { bytes_allowed = c1.bytes_allowed -ℤ length bytes; rbuf = a.1 }))
              c1.primary)
            λ taken. returns h))

pub process-In : (r : Recv) (c : Connection) → Ensures (In c.state) (process r c)
unfolding process
process-In r c = elim c.process_events as (λ e. Ensures (In c.state) (run_handler e r c)) [
  | resolve_length_handler ↦ resolve_length-In r c
  | transition_to_secondary_handler ↦ transition_to_secondary-In r c
  | copy_to_buffer_handler ↦ copy_to_buffer-In r c
]

pub reset-keeps : (c : Connection) {c1 : Connection} → reset c ≡ ok c1 → c1.state ≡ c.state
unfolding reset
reset-keeps c h = value {P = λ (c1 : Connection). c1.state ≡ c.state} h (
    then_any
      (elim c.bytes_allowed [
        | pos n ↦ feed c.rbuf c.primary
        | negsuc n ↦ do
          total ← total_packet_length c.rbuf
          from ← (elim (signed_32 total) [
            | pos k ↦ ok (advance c.primary k)
            | negsuc k ↦ retreat c.primary (suc k)
          ])
          m ← copy_bytes (suc n) c.rbuf.heap from c.primary
          feed (record c.rbuf { heap = m }) (advance c.primary (suc n))
      ])
      λ m. returns refl)
