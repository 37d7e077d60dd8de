-- ===== src/Server/Life.antt =====
-- The server from its start to its end, with the clients that come between.
use mosss.Common.{ℕ, ◌≡◌, refl, List, [], false, Option, ok, err, undefined, none, some}
use mosss.Worker.Listen.{Round, Sessions, Trace}
use mosss.Worker.Thread.{Signal}
use mosss.Worker.Thread.Ends.{running_worker}
use mosss.TcpServer.{TcpServer, disconnect_clients, disconnect_all, delete_each}
use mosss.TcpServer.Threads.{deleted, tcp_stop, delete_workers}
use mosss.TcpServer.Lifecycle.{begun}
use mosss.TcpServer.Threads.{Turn, accept_connections}
use mosss.TcpServer.Accepts.{arrivals, Orderly, accept_connections-Accepted}
use mosss.Server.{Server, server_start, server_stop, started}
use mosss.Server.Stops.{Running, signalled, server_stop-clean}
use mosss.Server.Starts.{at_start, good, started_server, server_start-good}

none_left :
    (v : Option ℕ) (t : TcpServer)
    → t.connections ≡ []
    → (t1 : TcpServer) × (disconnect_clients v t ≡ ok t1)
unfolding disconnect_all delete_each
none_left none t empty = (t, refl)
none_left (some fd) t empty =
    (record t { connections = []; allocated = t.allocated }, rw empty refl)

stop_again :
    (s : Server) (calls : ℕ → Signal × List Round) (sessions : Sessions)
    → s.network.workers ≡ deleted
    → s.network.tcp.connections ≡ []
    → server_stop calls sessions s ≡ err undefined
unfolding server_stop tcp_stop delete_workers
stop_again s calls sessions gone empty =
    let (t1, h) = none_left s.network.tcp.server_fd s.network.tcp empty in rw (h, gone) refl

-- `s` with the list of connections of `tcp`.
abbrev pub with_clients : Server → TcpServer → Server
with_clients s tcp = record s { network = record s.network { tcp = tcp } }

-- A life of the server: it starts; clients connect, whose number and order are any; it stops, with no
-- event under way. Then no connection that was made still exists, and it can be started anew; but
-- where it is stopped a second time, the behaviour is undefined.
pub server_stop-twice :
    (fd epfd efd fd1 : ℕ) (epfd1 : Option ℕ) (turns : List Turn) (calls : ℕ → Signal × List Round)
    (sessions : Sessions)
    → Orderly turns (λ c. false)
    → (tcp : TcpServer) × (trace : Trace) × (last : Sessions) × (s1 : Server) × (server_start
          (good fd (some epfd))
          at_start
        ≡ ok (started, started_server at_start fd (some epfd)))
      × (accept_connections turns (started_server at_start fd (some epfd)).network
          ≡ ok (with_clients (started_server at_start fd (some epfd)) tcp).network)
      × (tcp.connections ≡ arrivals turns)
      × (server_stop
            (signalled efd [])
            sessions
            (with_clients (started_server at_start fd (some epfd)) tcp)
          ≡ ok (trace, last, s1))
      × ((conn : ℕ) → s1.network.tcp.allocated conn ≡ false)
      × (server_start (good fd1 epfd1) s1 ≡ ok (started, started_server s1 fd1 epfd1))
      × (server_stop calls sessions s1 ≡ err undefined)
server_stop-twice fd epfd efd fd1 epfd1 turns calls sessions orderly =
    let s0 = started_server at_start fd (some epfd) in
    let a =
      accept_connections-Accepted turns s0.network (running_worker epfd) [] refl (begun (some fd))
        orderly in
    let r : Running (with_clients s0 a.tcp) fd (running_worker epfd) = record {
      reached = a.reached;
      socket = a.socket;
      workers = refl;
      thread = refl;
    } in
    let (trace, last, s1, stops, idle, no_thread, gone, empty, none_exist, _, _, _) =
      server_stop-clean (with_clients s0 a.tcp) fd epfd efd [] sessions r refl in
    (
      a.tcp,
      trace,
      last,
      s1,
      server_start-good at_start fd (some epfd) refl refl,
      a.returns,
      a.listed,
      stops,
      none_exist,
      server_start-good s1 fd1 epfd1 idle no_thread,
      stop_again s1 calls sessions gone empty,
    )
