-- ===== src/Server/Starts.antt =====
-- `server_start` and `server_stop`, from the start of the program on.
use mosss.Common.{
  ℕ, ◌≡◌, refl, List, [], ◌∷◌, Bool, false, true, Option, ok, err, system_error, none, some,
}
use mosss.Worker.Listen.{Round, Sessions}
use mosss.Worker.Thread.{Signal, opened, start, create}
use mosss.TcpServer.{disconnect_all, delete_each}
use mosss.TcpServer.Threads.{
  Setup, null, array, init_socket, tcp_init, tcp_start, tcp_stop, start_workers, start_each,
  delete_workers,
}
use mosss.Server.{Server, server_start, server_stop, already_running, init_failed, started}

-- The globals as the program begins.
abbrev pub at_start : Server
at_start = record {
  running = false;
  network = record {
    tcp = record { server_fd = none; connections = []; allocated = λ c. false };
    workers = null;
    worker_length = 0;
    runner = false;
    fds = λ fd. false;
  };
}

-- What a start does that fails in `tcp_init`, whatever came later.
abbrev FailsToStart : Setup → Setup → (ℕ → Signal × List Round) → Sessions → Type 0
FailsToStart setup setup1 calls sessions =
    (s1 : Server) × (server_start setup at_start ≡ ok (init_failed, s1))
    × (server_start setup1 s1 ≡ ok (already_running, s1))
    × (server_stop calls sessions s1 ≡ err system_error)

each_failure :
    (socket : Option ℕ) (option_set bound listening : Bool) (epfd : Option ℕ) (setup1 : Setup)
    (calls : ℕ → Signal × List Round) (sessions : Sessions)
    → (tcp_init
        (record {
          socket = socket;
          option_set = option_set;
          bound = bound;
          listening = listening;
          epfd = epfd;
        })
        at_start.network).0
      ≡ false
    → FailsToStart
        (record {
          socket = socket;
          option_set = option_set;
          bound = bound;
          listening = listening;
          epfd = epfd;
        })
        setup1
        calls
        sessions
unfolding tcp_init server_start server_stop tcp_stop init_socket disconnect_all delete_each
    delete_workers
each_failure none a b c epfd setup1 calls sessions h = (_, refl, refl, refl)
each_failure (some fd) false b c epfd setup1 calls sessions h = (_, refl, refl, refl)
each_failure (some fd) true false c epfd setup1 calls sessions h = (_, refl, refl, refl)
each_failure (some fd) true true false epfd setup1 calls sessions h = (_, refl, refl, refl)
each_failure (some fd) true true true epfd setup1 calls sessions h = absurd cc

-- A server that could not be initialized does not start, and counts as running: no later
-- `server_start` starts it, whatever its calls would return; and `server_stop` throws, since it
-- joins a thread that was never made.
pub start_after_failure :
    (setup setup1 : Setup) (calls : ℕ → Signal × List Round) (sessions : Sessions)
    → (tcp_init setup at_start.network).0 ≡ false
    → (s1 : Server) × (server_start setup at_start ≡ ok (init_failed, s1))
      × (server_start setup1 s1 ≡ ok (already_running, s1))
      × (server_stop calls sessions s1 ≡ err system_error)
start_after_failure setup setup1 calls sessions failed =
    each_failure setup.socket setup.option_set setup.bound setup.listening setup.epfd setup1 calls
      sessions failed

-- All calls of `tcp_init` succeed, and the constructor of the worker got `epfd`.
abbrev pub good : ℕ → Option ℕ → Setup
good fd epfd = record {
  socket = some fd;
  option_set = true;
  bound = true;
  listening = true;
  epfd = epfd;
}

-- The server `s` with what `server_start` makes.
abbrev pub started_server : Server → ℕ → Option ℕ → Server
started_server s fd epfd = record {
  running = true;
  network = record {
    tcp = record s.network.tcp { server_fd = some fd };
    workers = array (record { epfd = epfd; runner = true } ∷ []);
    worker_length = 1;
    runner = true;
    fds = opened epfd (opened (some fd) s.network.fds);
  };
}

pub server_start-good :
    (s : Server) (fd : ℕ) (epfd : Option ℕ)
    → s.running ≡ false
    → s.network.runner ≡ false
    → server_start (good fd epfd) s ≡ ok (started, started_server s fd epfd)
unfolding server_start tcp_init init_socket tcp_start start_workers start_each start create
server_start-good s fd epfd idle no_thread = rw (idle, no_thread) refl
