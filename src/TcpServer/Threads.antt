-- ===== src/TcpServer/Threads.antt =====
-- The start and the stop of src/network/tcpserver.cpp: the server socket, the array of workers, and
-- the thread that accepts. What the system calls return is an argument. The clients' own descriptors
-- are left out but for their flags (`configure_fd`), and the accepting thread is taken to end once it
-- is to be joined.
use mosss.Common.{
  ℕ, zero, suc, ◌+◌, ◌-◌, ◌^◌, bit_or, List, [], ◌∷◌, ◌++◌, Bool, true, false, if◌then◌else◌,
  Result, ok, err, undefined, terminated, system_error, no_fuel, ◌>>=◌, Option, none, some,
}
use mosss.Worker.Listen.{Round, Sessions, Trace}
use mosss.Worker.Thread.{NetworkWorker, Descriptors, Signal, opened, closed, create, start, destroy}
use mosss.TcpServer.{TcpServer, disconnect_clients, accept_connection}

-- The pointer `workers`.
pub data Workers : Type 0 where
  null : Workers
  array : List NetworkWorker → Workers
  deleted : Workers

pub record Network : Type 0 where
  pub tcp : TcpServer
  pub workers : Workers
  pub worker_length : ℕ
  -- Whether `runner` is joinable.
  pub runner : Bool
  pub fds : Descriptors

-- What the calls of `tcp_init` return, that of the worker's constructor included.
pub record Setup : Type 0 where
  pub socket : Option ℕ
  pub option_set : Bool
  pub bound : Bool
  pub listening : Bool
  pub epfd : Option ℕ

-- `new NetworkWorker[1]`.
abbrev pub with_worker : Option ℕ → Network → Network
with_worker epfd n =
    let (w, fds) = create epfd n.fds in
    record n { workers = array (w ∷ []); worker_length = 1; fds = fds }

-- The end of `tcp_init`, once there is a socket.
unfoldable pub init_socket : Setup → Network → Bool × Network
unfolding create
init_socket s n =
    if s.option_set
    then if s.bound
      then if s.listening then (true, with_worker s.epfd n) else (false, n)
      else (false, n)
    else (false, n)

unfoldable pub tcp_init : Setup → Network → Bool × Network
unfolding init_socket
tcp_init s n = elim s.socket [
  | none ↦ (false, record n { tcp = record n.tcp { server_fd = none } })
  | some fd ↦
      init_socket s
        (record n { tcp = record n.tcp { server_fd = some fd }; fds = opened (some fd) n.fds })
]

-- The elements that `workers[i]` may stand for.
abbrev pub elements : Workers → List NetworkWorker
elements null = []
elements (array ws) = ws
elements deleted = []

abbrev pub with_elements : Workers → List NetworkWorker → Workers
with_elements null ws = null
with_elements (array old) ws = array ws
with_elements deleted ws = deleted

unfoldable pub next_worker : Network → Result NetworkWorker
next_worker n = elim (elements n.workers) [ [] ↦ err undefined | (w ∷ ws) ↦ ok w ]

abbrev pub o_nonblock : ℕ
o_nonblock = 0x800

-- The flags of a client's descriptor after `configure_fd`, for what `F_GETFL` returns, whether
-- `F_SETFL` succeeds, and the flags before. Of -1 all bits are set.
unfoldable pub configure_fd : Option ℕ → Bool → ℕ → ℕ
configure_fd none set flags = if set then bit_or (2 ^ 32 - 1) o_nonblock else flags
configure_fd (some given) set flags = if set then bit_or given o_nonblock else flags

-- A round of the loop of `accept_connections`: `is_running()` is false, or `accept` returns, with the
-- address that `new` returns and whether `epoll_ctl` succeeds, where it comes to that.
pub data Turn : Type 0 where
  stopped : Turn
  accepted : Option ℕ → ℕ → Bool → Turn

abbrev pub worker_for : Option ℕ → Network → Result (Option NetworkWorker)
worker_for none n = ok none
worker_for (some client_fd) n = next_worker n >>= λ w. ok (some w)

unfoldable pub accept_connections : List Turn → Network → Result Network
accept_connections [] n = err no_fuel
accept_connections (stopped ∷ turns) n = ok n
accept_connections (accepted client_fd address added ∷ turns) n = do
  worker ← worker_for client_fd n
  tcp ← accept_connection client_fd address added n.tcp
  accept_connections turns (record n { tcp = tcp })

unfoldable pub start_each : ℕ → List NetworkWorker → Result (List NetworkWorker)
start_each zero ws = ok ws
start_each (suc n) [] = err undefined
start_each (suc n) (w ∷ ws) = do w1 ← start w; ws1 ← start_each n ws; ok (w1 ∷ ws1)

unfoldable pub start_workers : Network → Result Network
unfolding start_each
start_workers n = do
  ws ← start_each n.worker_length (elements n.workers)
  ok (record n { workers = with_elements n.workers ws })

unfoldable pub tcp_start : Network → Result Network
unfolding start_workers
tcp_start n = do
  n1 ← start_workers n
  if n1.runner then err terminated else ok (record n1 { runner = true })

-- The destructors of the elements from the `i`-th on, the last one first. For each one: what its
-- calls return, and the rounds that its thread has under way.
unfoldable pub destroy_each :
    (ℕ → Signal × List Round)
    → ℕ
    → List NetworkWorker
    → Sessions
    → Descriptors
    → Result (Trace × Sessions × Descriptors)
destroy_each calls i [] sessions fds = ok ([], sessions, fds)
destroy_each calls i (w ∷ ws) sessions fds = do
  (outs, sessions1, fds1) ← destroy_each calls (i + 1) ws sessions fds
  (others, sessions2, fds2) ← destroy (calls i).0 (calls i).1 sessions1 fds1 w
  ok (outs ++ others, sessions2, fds2)

-- `delete[] workers`.
unfoldable pub delete_workers :
    (ℕ → Signal × List Round)
    → Workers
    → Sessions
    → Descriptors
    → Result (Trace × Sessions × Descriptors)
unfolding destroy_each
delete_workers calls null sessions fds = ok ([], sessions, fds)
delete_workers calls (array ws) sessions fds = destroy_each calls 0 ws sessions fds
delete_workers calls deleted sessions fds = err undefined

-- The pointer stays as it is, except that it now dangles.
abbrev pub after_delete : Workers → Workers
after_delete null = null
after_delete (array ws) = deleted
after_delete deleted = deleted

-- The sessions of the connections that exist.
abbrev pub kept : TcpServer → Sessions → Sessions
kept t sessions c = if t.allocated c then sessions c else none

unfoldable pub tcp_stop :
    (ℕ → Signal × List Round) → Sessions → Network → Result (Trace × Sessions × Network)
unfolding delete_workers
tcp_stop calls sessions n = do
  tcp ← disconnect_clients n.tcp.server_fd n.tcp
  (trace, last, fds) ←
      delete_workers calls n.workers (kept tcp sessions) (closed n.tcp.server_fd n.fds)
  let n1 : Network = record n {
    tcp = tcp;
    workers = after_delete n.workers;
    runner = false;
    fds = fds;
  }
  if n.runner then ok (trace, last, n1) else err system_error
