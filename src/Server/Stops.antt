-- ===== src/Server/Stops.antt =====
-- `server_stop`: in which order the connections, the workers and the threads end.
use mosss.Common.{
  ℕ, ◌≡◌, ◌≢◌, refl, sym, ap, ◌∙◌, ◌>>=◌, List, [], ◌∷◌, ◌==◌, ==_iff, Bool-cases, inl, inr, false,
  true, Option, ok, err, undefined, terminated, none, some, Result,
}
use mosss.Memory.Copy.{update_self}
use mosss.Worker.Listen.{Occurrence, Round, Sessions, Trace}
use mosss.Worker.Listen.Flow.{handled}
use mosss.Worker.Listen.Clients.{play}
use mosss.Worker.Thread.{NetworkWorker, Signal, Descriptors, closed, destroy}
use mosss.Worker.Thread.Ends.{running_worker, destroy-Returns, destroy-dangling}
use mosss.TcpServer.{TcpServer, disconnect_clients}
use mosss.TcpServer.Threads.{Network, array, deleted, kept, tcp_stop, destroy_each, delete_workers}
use mosss.TcpServer.Lifecycle.{Reached, begun, disconnect_all-clean}
use mosss.Server.{Server, server_start, server_stop, started}
use mosss.Server.Starts.{at_start, good, started_server, server_start-good}

-- A server that runs, with one worker.
pub record Running (s : Server) (fd : ℕ) (worker : NetworkWorker) : Type 0 where
  pub reached : Reached s.network.tcp
  pub socket : s.network.tcp.server_fd ≡ some fd
  pub workers : s.network.workers ≡ array (worker ∷ [])
  pub thread : s.network.runner ≡ true

-- `server_stop` of a server that runs is the destructor of its worker, after `disconnect_all`.
record Halted (s : Server) (fd : ℕ) (worker : NetworkWorker) (calls : ℕ → Signal × List Round)
    (sessions : Sessions) : Type 0 where
  tcp : TcpServer
  gone : (c : ℕ) → kept tcp sessions c ≡ none
  empty : tcp.connections ≡ []
  unallocated : (c : ℕ) → tcp.allocated c ≡ false
  fds : Descriptors
  closed_socket : fds fd ≡ false
  stops : server_stop calls sessions s ≡ (
      destroy (calls 0).0 (calls 0).1 (kept tcp sessions) fds worker >>= λ x. ok (
        x.0,
        x.1,
        record {
          running = false;
          network = record s.network { tcp = tcp; workers = deleted; runner = false; fds = x.2 };
        },
      ))

-- The steps after the destructor.
abbrev one_worker : Trace × Sessions × Descriptors → Result (Trace × Sessions × Descriptors)
one_worker x = ok (x.0, x.1, x.2)

abbrev no_worker :
    (Descriptors → Network) → Trace × Sessions × Descriptors → Result (Trace × Sessions × Network)
no_worker n x = ok (x.0, x.1, n x.2)

abbrev not_running : Trace × Sessions × Network → Result (Trace × Sessions × Server)
not_running x = ok (x.0, x.1, record { running = false; network = x.2 })

steps :
    (d : Result (Trace × Sessions × Descriptors)) (n : Descriptors → Network)
    → (d >>= one_worker >>= no_worker n >>= not_running)
      ≡ (d >>= λ x. not_running (x.0, x.1, n x.2))
steps (ok x) n = refl
steps (err e) n = refl

Running-Halted :
    (s : Server) (fd : ℕ) (worker : NetworkWorker) (calls : ℕ → Signal × List Round)
    (sessions : Sessions)
    → Running s fd worker
    → Halted s fd worker calls sessions
unfolding server_stop tcp_stop delete_workers destroy_each
Running-Halted s fd worker calls sessions r =
    let (t1, e, empty, all) = disconnect_all-clean s.network.tcp r.reached in
    let disconnected : disconnect_clients s.network.tcp.server_fd s.network.tcp ≡ ok t1 =
      ap (λ v. disconnect_clients v s.network.tcp) r.socket ∙ e in
    let fds = closed s.network.tcp.server_fd s.network.fds in
    record {
      tcp = t1;
      gone = λ c. rw (all c) refl;
      empty = empty;
      unallocated = all;
      fds = fds;
      closed_socket =
          ap (λ v. closed v s.network.fds fd) r.socket ∙ update_self s.network.fds fd false;
      stops =
          rw (disconnected, r.workers, r.thread)
            (steps (destroy (calls 0).0 (calls 0).1 (kept t1 sessions) fds worker)
              (λ d. record s.network { tcp = t1; workers = deleted; runner = false; fds = d }));
    }

all_closed :
    (fds earlier : Descriptors) (fd epfd efd : ℕ)
    → fds epfd ≡ false
    → fds efd ≡ false
    → earlier fd ≡ false
    → ((i : ℕ) → i ≢ epfd → i ≢ efd → fds i ≡ earlier i)
    → fds fd ≡ false
all_closed fds earlier fd epfd efd one two three others = elim (Bool-cases (fd == epfd)) [
  | inl same ↦ ap fds ((==_iff fd epfd).0 same) ∙ one
  | inr different ↦ elim (Bool-cases (fd == efd)) [
    | inl same ↦ ap fds ((==_iff fd efd).0 same) ∙ two
    | inr other ↦ others fd (different_of fd epfd different) (different_of fd efd other) ∙ three
  ]
]
  where
    different_of : (i j : ℕ) → (i == j) ≡ false → i ≢ j
    different_of i j h e = absurd (let both : true ≡ false = sym ((==_iff i j).1 e) ∙ h in cc)

pub just_started :
    (fd : ℕ) (epfd : Option ℕ)
    → Running (started_server at_start fd epfd) fd (record { epfd = epfd; runner = true })
just_started fd epfd = record {
  reached = begun (some fd);
  socket = refl;
  workers = refl;
  thread = refl;
}

-- What `server_stop` is given where the three calls of the destructor of the worker succeed.
abbrev pub signalled : ℕ → List Round → ℕ → Signal × List Round
signalled efd rounds i = (record { efd = some efd; added = true; written = true }, rounds)

-- Whatever clients came and went, one after the other: `server_stop` of a server that runs, and whose
-- worker has no event of a client under way, returns. The server does not run then and could be
-- started anew, the list of connections is empty, no connection that was made still exists, and the
-- descriptors of the socket, of epoll and of the signal are closed.
pub server_stop-clean :
    (s : Server) (fd epfd efd : ℕ) (rounds : List Round) (sessions : Sessions)
    → Running s fd (running_worker epfd)
    → handled rounds ≡ []
    → (trace : Trace) × (last : Sessions) × (s1 : Server) × (server_stop
          (signalled efd rounds)
          sessions
          s
        ≡ ok (trace, last, s1))
      × (s1.running ≡ false)
      × (s1.network.runner ≡ false)
      × (s1.network.workers ≡ deleted)
      × (s1.network.tcp.connections ≡ [])
      × ((conn : ℕ) → s1.network.tcp.allocated conn ≡ false)
      × (s1.network.fds fd ≡ false)
      × (s1.network.fds epfd ≡ false)
      × (s1.network.fds efd ≡ false)
server_stop-clean s fd epfd efd rounds sessions r quiet =
    let h = Running-Halted s fd (running_worker epfd) (signalled efd rounds) sessions r in
    let (trace, last, fds, ends, alone, no_epfd, no_efd, others) =
      destroy-Returns epfd efd rounds (kept h.tcp sessions) h.fds
        (λ c. rw quiet (unfold play in (([], kept h.tcp sessions c), refl))) in
    (
      trace,
      last,
      record {
        running = false;
        network = record s.network { tcp = h.tcp; workers = deleted; runner = false; fds = fds };
      },
      h.stops ∙ (rw ends refl),
      refl,
      refl,
      refl,
      h.empty,
      h.unallocated,
      all_closed fds h.fds fd epfd efd no_epfd no_efd h.closed_socket others,
      no_epfd,
      no_efd,
    )

-- Where the worker still has an event under way, `disconnect_all` comes before the end of its thread,
-- and deletes the connection of the event: the behaviour of `server_stop` is undefined.
pub server_stop-race :
    (s : Server) (fd epfd efd : ℕ) (rounds : List Round) (sessions : Sessions) (e : Occurrence)
    (events : List Occurrence)
    → Running s fd (running_worker epfd)
    → handled rounds ≡ e ∷ events
    → server_stop (signalled efd rounds) sessions s ≡ err undefined
server_stop-race s fd epfd efd rounds sessions e events r first =
    let h = Running-Halted s fd (running_worker epfd) (signalled efd rounds) sessions r in
    h.stops
    ∙ (rw
        (destroy-dangling epfd efd rounds (kept h.tcp sessions) h.fds e events first
          (h.gone e.conn))
        refl)

-- Where `epoll_create1` fails, the server starts all the same, but the thread of its worker is not
-- joined before its end: `server_stop` is the end of the program.
server_stop-no_epoll :
    (fd : ℕ) (calls : ℕ → Signal × List Round) (sessions : Sessions)
    → (server_start (good fd none) at_start ≡ ok (started, started_server at_start fd none))
      × (server_stop calls sessions (started_server at_start fd none) ≡ err terminated)
server_stop-no_epoll fd calls sessions =
    let h = Running-Halted _ fd _ calls sessions (just_started fd none) in
    (server_start-good at_start fd none refl refl, h.stops ∙ (unfold destroy in refl))
