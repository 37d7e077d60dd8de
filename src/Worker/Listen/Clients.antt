-- ===== src/Worker/Listen/Clients.antt =====
-- What the loop is for each client.
use mosss.Common.{
  ℕ, ◌≡◌, refl, sym, ap, ◌∙◌, List, [], ◌∷◌, ◌++◌, true, false, ◌==◌, ==_iff, ==_self, Bool-cases,
  inl, inr, if◌then◌else◌, Result, ok, err, ◌>>=◌, >>=-eq-ok, ok_injective, Option, none, some,
}
use mosss.Memory.{update}
use mosss.Worker.Session.{Session}
use mosss.Worker.Events.{on_event}
use mosss.Worker.Listen.{
  Occurrence, Round, Sessions, Trace, present, answered, session_left, handle_event, listen,
}
use mosss.Worker.Listen.Flow.{handled, ends, after, flow, listen-flow}

-- The events of one client, and what was sent to it.
abbrev pub own : ℕ → List Occurrence → List Occurrence
own c [] = []
own c (e ∷ events) = if e.conn == c then e ∷ own c events else own c events

abbrev pub sent : ℕ → Trace → List ℕ
sent c [] = []
sent c (out ∷ outs) = (if out.0 == c then out.1 else []) ++ sent c outs

-- A client alone, with a session as long as it is connected.
unfoldable pub play : List Occurrence → Option Session → Result (List ℕ × Option Session)
play [] here = ok ([], here)
play (e ∷ events) here = do
  s ← present here
  there ← on_event e.io e.recv s
  (outs, last) ← play events (session_left there)
  ok (answered there ++ outs, last)

-- `handle_event`, by what it does to the session of the connection.
handle_event_parts :
    (e : Occurrence) (sessions : Sessions) (a : List ℕ × Sessions)
    → handle_event e sessions ≡ ok a
    → (s : Session) × (there : Option (List ℕ × Session)) × (sessions e.conn ≡ some s)
      × (on_event e.io e.recv s ≡ ok there)
      × (a ≡ (answered there, update sessions e.conn (session_left there)))
unfolding handle_event
handle_event_parts e sessions a h =
    let (s, here, h1) = >>=-eq-ok (present (sessions e.conn)) _ h in
    let (there, happens, h2) = >>=-eq-ok (on_event e.io e.recv s) _ h1 in
    (s, there, some_of (sessions e.conn) here, happens, cc)
  where
    some_of : {s : Session} (o : Option Session) → present o ≡ ok s → o ≡ some s
    some_of none q = cc
    some_of (some t) q = cc

after-eq-ok :
    (outs : Trace) (r : Result (Trace × Sessions)) (x : Trace × Sessions)
    → after outs r ≡ ok x
    → (y : Trace × Sessions) × (r ≡ ok y) × (x ≡ (outs ++ y.0, y.1))
after-eq-ok outs (ok y) x h = (y, refl, sym (ok_injective h))
after-eq-ok outs (err e) x h = cc

-- A client that an event is not for.
update_other :
    (sessions : Sessions) (d c : ℕ) (o : Option Session)
    → (d == c) ≡ false
    → update sessions d o c ≡ sessions c
unfolding update
update_other sessions d c o h = rw h refl

update_here :
    (sessions : Sessions) (d c : ℕ) (o : Option Session)
    → (d == c) ≡ true
    → update sessions d o c ≡ o
unfolding update
update_here sessions d c o h = rw h refl

play-step :
    (e : Occurrence) (events : List Occurrence) (here : Option Session) (s : Session)
    (there : Option (List ℕ × Session)) (outs : List ℕ) (last : Option Session)
    → here ≡ some s
    → on_event e.io e.recv s ≡ ok there
    → play events (session_left there) ≡ ok (outs, last)
    → play (e ∷ events) here ≡ ok (answered there ++ outs, last)
unfolding play
play-step e events here s there outs last connected happens rest =
    rw (connected, happens, rest) refl

flow-play :
    (events : List Occurrence) (sessions : Sessions) (x : Trace × Sessions) (c : ℕ)
    → flow events sessions ≡ ok x
    → play (own c events) (sessions c) ≡ ok (sent c x.0, x.1 c)
unfolding flow
flow-play [] sessions x c h =
    unfold play in ap (λ (t : Trace × Sessions). ok (sent c t.0, t.1 c)) (ok_injective h)
flow-play (e ∷ events) sessions x c h =
    let (a, h1, h2) = >>=-eq-ok (handle_event e sessions) _ h in
    let (s, there, here, happens, parts) = handle_event_parts e sessions a h1 in
    let (y, h3, whole) = after-eq-ok ((e.conn, a.0) ∷ []) (flow events a.1) x h2 in
    let ih = flow-play events a.1 y c h3 in
    let out : a.0 ≡ answered there = ap (λ (b : List ℕ × Sessions). b.0) parts in
    let now : a.1 c ≡ update sessions e.conn (session_left there) c =
      ap (λ (b : List ℕ × Sessions). b.1 c) parts in
    elim (Bool-cases (e.conn == c)) [
      | inl mine ↦
          let same : sessions c ≡ some s = ap sessions (sym ((==_iff e.conn c).0 mine)) ∙ here in
          let rest : play (own c events) (session_left there) ≡ ok (sent c y.0, y.1 c) =
            ap (play (own c events))
              (sym (now ∙ update_here sessions e.conn c (session_left there) mine))
            ∙ ih in
          rw (mine, whole, mine, out)
            (play-step e (own c events) (sessions c) s there (sent c y.0) (y.1 c) same happens rest)
      | inr other ↦
          rw (other, whole, other)
            (ap (play (own c events))
                (sym (now ∙ update_other sessions e.conn c (session_left there) other))
              ∙ ih)
    ]

-- Where a client's part returns, so does its first event.
play_parts :
    (e : Occurrence) (events : List Occurrence) (here : Option Session)
    (o : List ℕ × Option Session)
    → play (e ∷ events) here ≡ ok o
    → (s : Session) × (there : Option (List ℕ × Session)) × (q : List ℕ × Option Session) × (here
        ≡ some s)
      × (on_event e.io e.recv s ≡ ok there)
      × (play events (session_left there) ≡ ok q)
unfolding play
play_parts e events none o h = cc
play_parts e events (some s) o h =
    let (there, happens, h1) = >>=-eq-ok (on_event e.io e.recv s) _ h in
    let (q, rest, h2) = >>=-eq-ok (play events (session_left there)) _ h1 in
    (s, there, q, refl, happens, rest)

abbrev pub Returns {ℓ} : {A : Type ℓ} → Result A → Type ℓ
Returns {A = A} r = (a : A) × (r ≡ ok a)

flow-Returns :
    (events : List Occurrence) (sessions : Sessions)
    → ((c : ℕ) → Returns (play (own c events) (sessions c)))
    → Returns (flow events sessions)
unfolding flow
flow-Returns [] sessions each = (([], sessions), refl)
flow-Returns (e ∷ events) sessions each =
    let mine = each e.conn in
    let (s, there, q, here, happens, rest) =
      play_parts e (own e.conn events) (sessions e.conn) mine.0 (rw (==_self e.conn) at mine.1) in
    let now = update sessions e.conn (session_left there) in
    let handled_one : handle_event e sessions ≡ ok (answered there, now) =
      unfold handle_event in rw (here, happens) refl in
    let (y, more) = flow-Returns events now (λ c. elim (Bool-cases (e.conn == c)) [
      | inl same ↦
          let at_c : c ≡ e.conn = sym ((==_iff e.conn c).0 same) in
          (q, rw (update_here sessions e.conn c (session_left there) same, at_c) rest)
      | inr other ↦
          let same = each c in
          (
            same.0,
            rw (update_other sessions e.conn c (session_left there) other) (rw other at same.1),
          )
    ]) in
    (((e.conn, answered there) ∷ y.0, y.1), rw (handled_one, more) refl)

-- Whatever `epoll_wait` returns, and in which order: where a round ends the loop, and the loop
-- returns, then for each client what was sent to it, and its session at the end, are those of a
-- worker that has no other client and gets this client's events alone, in their order, up to the
-- null pointer.
pub listen-play :
    (rounds : List Round) (sessions : Sessions) (x : Trace × Sessions) (c : ℕ)
    → ends rounds ≡ true
    → listen rounds sessions ≡ ok x
    → play (own c (handled rounds)) (sessions c) ≡ ok (sent c x.0, x.1 c)
listen-play rounds sessions x c ended h =
    flow-play (handled rounds) sessions x c (sym (listen-flow rounds sessions ended) ∙ h)

-- And the loop does return where, for each client, the worker that has this client alone does: no
-- client keeps it from the others.
pub listen-Returns :
    (rounds : List Round) (sessions : Sessions)
    → ends rounds ≡ true
    → ((c : ℕ) → Returns (play (own c (handled rounds)) (sessions c)))
    → Returns (listen rounds sessions)
listen-Returns rounds sessions ended each =
    let (x, h) = flow-Returns (handled rounds) sessions each in
    (x, listen-flow rounds sessions ended ∙ h)
