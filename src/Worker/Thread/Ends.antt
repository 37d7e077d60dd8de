-- ===== src/Worker/Thread/Ends.antt =====
-- When the destructor of a worker returns.
use mosss.Common.{
  ℕ, ◌≡◌, ◌≢◌, ◌==◌, refl, sym, ap, ◌∙◌, List, [], ◌∷◌, ◌++◌, Bool, true, false, Bool-cases, inl,
  inr, if◌then◌else◌, Result, ok, err, blocked, terminated, no_fuel, undefined, malformed_varint,
  buffer_overflow, length_error, system_error, ok_injective, append-nil, >>=-eq-ok, Option, none,
  some,
}
use mosss.Memory.{update}
use mosss.Memory.Copy.{update_self, update_ne}
use mosss.Worker.Listen.{
  Occurrence, Round, stopped, wait_failed, woken, Sessions, Trace, handle_event, batch, listen,
}
use mosss.Worker.Listen.Flow.{flow, listen-flow, handled, ends, over, before}
use mosss.Worker.Listen.Clients.{own, sent, play, Returns, listen-play, listen-Returns}
use mosss.Worker.Thread.{NetworkWorker, Descriptors, Signal, sent_signal, remaining, join, destroy}

abbrev shutdown : List Round
shutdown = woken (none ∷ []) ∷ []

-- With the null pointer behind them the rounds end the loop, and no other event is handled.
ends-shutdown : (rounds : List Round) → ends (rounds ++ shutdown) ≡ true
ends-shutdown [] = refl
ends-shutdown (stopped ∷ rounds) = refl
ends-shutdown (wait_failed ∷ rounds) = ends-shutdown rounds
ends-shutdown (woken events ∷ rounds) = elim (Bool-cases (over events)) [
  | inl last ↦ rw last refl
  | inr more ↦ rw more (ends-shutdown rounds)
]

handled-shutdown : (rounds : List Round) → handled (rounds ++ shutdown) ≡ handled rounds
handled-shutdown [] = refl
handled-shutdown (stopped ∷ rounds) = refl
handled-shutdown (wait_failed ∷ rounds) = handled-shutdown rounds
handled-shutdown (woken events ∷ rounds) =
    ap (λ es. before events ++ (if over events then [] else es)) (handled-shutdown rounds)

batch-over :
    (events : List (Option Occurrence)) (sessions : Sessions) (x : Bool × Trace × Sessions)
    → batch events sessions ≡ ok x
    → x.0 ≡ over events
unfolding batch
batch-over [] sessions x h = sym (ap (λ (y : Bool × Trace × Sessions). y.0) (ok_injective h))
batch-over (none ∷ events) sessions x h =
    sym (ap (λ (y : Bool × Trace × Sessions). y.0) (ok_injective h))
batch-over (some e ∷ events) sessions x h =
    let (a, h1, h2) = >>=-eq-ok (handle_event e sessions) _ h in
    let (y, h3, h4) = >>=-eq-ok (batch events a.1) _ h2 in
    sym (ap (λ (z : Bool × Trace × Sessions). z.0) (ok_injective h4)) ∙ batch-over events a.1 y h3

-- `listen` that returns was ended by a round.
listen-ends :
    (rounds : List Round) (sessions : Sessions) (x : Trace × Sessions)
    → listen rounds sessions ≡ ok x
    → ends rounds ≡ true
unfolding listen
listen-ends [] sessions x h = absurd cc
listen-ends (stopped ∷ rounds) sessions x h = refl
listen-ends (wait_failed ∷ rounds) sessions x h = listen-ends rounds sessions x h
listen-ends (woken events ∷ rounds) sessions x h =
    let (y, e, h1) = >>=-eq-ok (batch events sessions) _ h in
    let flag = batch-over events sessions y e in
    elim (Bool-cases (over events)) [
      | inl last ↦ rw last refl
      | inr more ↦
          let goes_on = rw (flag ∙ more) at h1 in
          let (z, e1, _) = >>=-eq-ok (listen rounds y.2) _ goes_on in
          rw more (listen-ends rounds y.2 z e1)
    ]

pub stays_closed :
    (fds : Descriptors) (fd other : ℕ) → fds other ≡ false → update fds fd false other ≡ false
unfolding update
stays_closed fds fd other h = elim (Bool-cases (fd == other)) [
  | inl same ↦ rw same refl
  | inr different ↦ rw different h
]

join-ok : (r : Result (Trace × Sessions)) (x : Trace × Sessions) → join r ≡ ok x → r ≡ ok x
unfolding join
join-ok (ok y) x h = h
join-ok (err undefined) x h = absurd cc
join-ok (err malformed_varint) x h = absurd cc
join-ok (err buffer_overflow) x h = absurd cc
join-ok (err length_error) x h = absurd cc
join-ok (err no_fuel) x h = absurd cc
join-ok (err terminated) x h = absurd cc
join-ok (err blocked) x h = absurd cc
join-ok (err system_error) x h = absurd cc

-- The worker that `tcp_start` leaves, where `epoll_create1` returned `epfd`.
abbrev pub running_worker : ℕ → NetworkWorker
running_worker epfd = record { epfd = some epfd; runner = true }

-- Where the three calls of its destructor succeed, and for each client the worker that has this
-- client alone returns, a worker that runs ends: `join` returns once each client's events that the
-- thread had got are handled as by a worker of its own; then the two descriptors are closed, and
-- every other one is as it was.
pub destroy-Returns :
    (epfd efd : ℕ) (rounds : List Round) (sessions : Sessions) (fds : Descriptors)
    → ((c : ℕ) → Returns (play (own c (handled rounds)) (sessions c)))
    → (trace : Trace) × (last : Sessions) × (fds1 : Descriptors) × (destroy
          (record { efd = some efd; added = true; written = true })
          rounds
          sessions
          fds
          (running_worker epfd)
        ≡ ok (trace, last, fds1))
      × ((c : ℕ) → play (own c (handled rounds)) (sessions c) ≡ ok (sent c trace, last c))
      × (fds1 epfd ≡ false)
      × (fds1 efd ≡ false)
      × ((fd : ℕ) → fd ≢ epfd → fd ≢ efd → fds1 fd ≡ fds fd)
unfolding destroy remaining sent_signal join
destroy-Returns epfd efd rounds sessions fds each =
    let same = handled-shutdown rounds in
    let (x, h) =
      listen-Returns (rounds ++ shutdown) sessions (ends-shutdown rounds) (λ c. rw same (each c)) in
    let fds1 = update (update (update fds efd true) efd false) epfd false in
    (
      x.0,
      x.1,
      fds1,
      rw h refl,
      λ c. rw same at (listen-play (rounds ++ shutdown) sessions x c (ends-shutdown rounds) h),
      update_self _ epfd false,
      stays_closed (update (update fds efd true) efd false) epfd efd (update_self _ efd false),
      λ fd other here.
          update_ne _ epfd fd false (λ e. other (sym e))
          ∙ update_ne _ efd fd false (λ e. here (sym e))
          ∙ update_ne fds efd fd true (λ e. here (sym e)),
    )

-- Where the first event that the thread had got is one of a connection that is deleted, the
-- behaviour of a worker that ends is undefined.
pub destroy-dangling :
    (epfd efd : ℕ) (rounds : List Round) (sessions : Sessions) (fds : Descriptors) (e : Occurrence)
    (events : List Occurrence)
    → handled rounds ≡ e ∷ events
    → sessions e.conn ≡ none
    → destroy
        (record { efd = some efd; added = true; written = true })
        rounds
        sessions
        fds
        (running_worker epfd)
      ≡ err undefined
unfolding destroy remaining sent_signal join
destroy-dangling epfd efd rounds sessions fds e events first gone =
    let fails : listen (rounds ++ shutdown) sessions ≡ err undefined =
      listen-flow (rounds ++ shutdown) sessions (ends-shutdown rounds)
      ∙ ap (λ es. flow es sessions) (handled-shutdown rounds ∙ first)
      ∙ (unfold flow handle_event in rw gone refl) in
    rw fails refl

-- Where one of the three calls of its destructor fails, and no round that is under way ends the loop
-- of a worker that runs, the destructor does not return.
pub destroy-blocks :
    (epfd : ℕ) (signal : Signal) (rounds : List Round) (sessions : Sessions) (fds : Descriptors)
    → sent_signal signal.efd signal.added signal.written ≡ false
    → ends rounds ≡ false
    → ¬ Returns (destroy signal rounds sessions fds (running_worker epfd))
unfolding destroy remaining
destroy-blocks epfd signal rounds sessions fds quiet goes_on (x, h) =
    let (y, h1, _) = >>=-eq-ok (join (listen (remaining signal rounds) sessions)) _ h in
    let all : remaining signal rounds ≡ rounds =
      ap (λ (b : Bool). rounds ++ (if b then shutdown else [])) quiet ∙ append-nil rounds in
    let ended = listen-ends rounds sessions y (rw all at (join-ok _ y h1)) in cc
