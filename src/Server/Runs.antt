-- ===== src/Server/Runs.antt =====
-- The tick loop and the server at concrete readings of the clock and with one client.
use mosss.Common.{
  ℕ, ◌≡◌, refl, arith, List, [], ◌∷◌, true, false, none, some, ok, err, undefined, system_error,
}
use mosss.Memory.{update}
use mosss.Worker.Listen.{Sessions, Trace, wait_failed, woken}
use mosss.Worker.Listen.Runs.{clients, start}
use mosss.Worker.Thread.Ends.{running_worker}
use mosss.TcpServer.{TcpServer, accept_connection, connect, push_back}
use mosss.TcpServer.Threads.{
  Setup, deleted, init_socket, tcp_init, Turn, stopped, accepted, accept_connections,
}
use mosss.TcpServer.Lifecycle.{begun, joined}
use mosss.TcpServer.Accepts.{arrivals}
use mosss.Server.{
  Loop, Server, naps, sleep, round, rounds, loop, server_start, server_stop, chat_thread,
  stop_command, init_failed, started, already_running,
}
use mosss.Server.Sleep.{Woken, sleep_lem}
use mosss.Server.Pace.{OnSchedule, loop-OnSchedule}
use mosss.Server.Starts.{at_start, good, started_server, start_after_failure}
use mosss.Server.Stops.{Running, signalled, server_stop-clean, server_stop-race}
use mosss.Server.Chat.{chat_thread-stops}
use mosss.Server.Life.{with_clients, server_stop-twice}

sleep_lem_example :
    (slept : List ℕ) × (rest : List ℕ) × (sleep 12 (10 ∷ 11 ∷ 15 ∷ []) ≡ ok (slept, rest))
    × Woken 12 (10 ∷ 11 ∷ 15 ∷ []) slept rest
sleep_lem_example = sleep_lem 12 10 (11 ∷ 15 ∷ []) (omega arith, (omega arith, tt)) (omega arith)

abbrev restarted : Loop
restarted = record { ticks = 0; base_time = 500_000_200 }

-- The first tick is over in time; the second takes half a second, and the schedule starts anew.
two_ticks :
    loop 2 (0 ∷ 1_000 ∷ 50_001_000 ∷ 50_001_100 ∷ 500_000_000 ∷ 500_000_100 ∷ 500_000_200 ∷ [])
    ≡ ok (restarted, [])
unfolding loop rounds round sleep naps
two_ticks = refl

loop-OnSchedule_example :
    OnSchedule 2 0
      (0 ∷ 1_000 ∷ 50_001_000 ∷ 50_001_100 ∷ 500_000_000 ∷ 500_000_100 ∷ 500_000_200 ∷ [])
      restarted
      []
loop-OnSchedule_example =
    loop-OnSchedule 2 0
      (1_000 ∷ 50_001_000 ∷ 50_001_100 ∷ 500_000_000 ∷ 500_000_100 ∷ 500_000_200 ∷ []) restarted []
      (omega arith)
      (
        omega arith,
        omega arith,
        (
          omega arith,
          omega arith,
          (
            omega arith,
            omega arith,
            (omega arith, omega arith, (omega arith, omega arith, (omega arith, omega arith, tt))),
          ),
        ),
      )
      two_ticks

abbrev no_session : Sessions
no_session c = none

-- `bind` fails.
abbrev port_taken : Setup
port_taken = record {
  socket = some 3;
  option_set = true;
  bound = false;
  listening = true;
  epfd = some 7;
}

port_taken_fails : (tcp_init port_taken at_start.network).0 ≡ false
unfolding tcp_init init_socket
port_taken_fails = refl

start_after_failure_example :
    (s1 : Server) × (server_start port_taken at_start ≡ ok (init_failed, s1))
    × (server_start (good 4 (some 7)) s1 ≡ ok (already_running, s1))
    × (server_stop (signalled 9 []) no_session s1 ≡ err system_error)
start_after_failure_example =
    start_after_failure port_taken (good 4 (some 7)) (signalled 9 []) no_session port_taken_fails

abbrev listening : TcpServer
listening = record { server_fd = some 3; connections = []; allocated = λ c. false }

abbrev one_client : TcpServer
one_client = record {
  server_fd = some 3;
  connections = 4 ∷ [];
  allocated = update (λ c. false) 4 true;
}

joins : accept_connection (some 5) 4 true listening ≡ ok one_client
unfolding accept_connection connect push_back
joins = refl

abbrev busy : Server
busy = with_clients (started_server at_start 3 (some 7)) one_client

busy-Running : Running busy 3 (running_worker 7)
busy-Running = record {
  reached = joined listening 5 4 one_client (begun (some 3)) refl joins;
  socket = refl;
  workers = refl;
  thread = refl;
}

server_stop-clean_example :
    (trace : Trace) × (last : Sessions) × (s1 : Server) × (server_stop
        (signalled 9 (wait_failed ∷ []))
        clients
        busy
      ≡ ok (trace, last, s1))
    × (s1.running ≡ false)
    × (s1.network.runner ≡ false)
    × (s1.network.workers ≡ deleted)
    × (s1.network.tcp.connections ≡ [])
    × ((conn : ℕ) → s1.network.tcp.allocated conn ≡ false)
    × (s1.network.fds 3 ≡ false)
    × (s1.network.fds 7 ≡ false)
    × (s1.network.fds 9 ≡ false)
server_stop-clean_example =
    server_stop-clean busy 3 7 9 (wait_failed ∷ []) clients busy-Running refl

-- The client is heard while the server stops.
server_stop-race_example :
    server_stop (signalled 9 (woken (some start ∷ []) ∷ [])) clients busy ≡ err undefined
server_stop-race_example =
    server_stop-race busy 3 7 9 (woken (some start ∷ []) ∷ []) clients start [] busy-Running refl

abbrev turns : List Turn
turns = accepted (some 5) 100 true ∷ accepted (some 6) 200 true ∷ stopped ∷ []

server_stop-twice_example :
    (tcp : TcpServer) × (trace : Trace) × (last : Sessions) × (s1 : Server) × (server_start
        (good 3 (some 7))
        at_start
      ≡ ok (started, started_server at_start 3 (some 7)))
    × (accept_connections turns (started_server at_start 3 (some 7)).network
        ≡ ok (with_clients (started_server at_start 3 (some 7)) tcp).network)
    × (tcp.connections ≡ arrivals turns)
    × (server_stop
          (signalled 9 [])
          no_session
          (with_clients (started_server at_start 3 (some 7)) tcp)
        ≡ ok (trace, last, s1))
    × ((conn : ℕ) → s1.network.tcp.allocated conn ≡ false)
    × (server_start (good 3 (some 8)) s1 ≡ ok (started, started_server s1 3 (some 8)))
    × (server_stop (signalled 9 []) no_session s1 ≡ err undefined)
unfolding update
server_stop-twice_example =
    server_stop-twice 3 7 9 3 (some 8) turns (signalled 9 []) no_session
      (refl, refl, (refl, refl, tt))

-- A word, the command, and the command again.
chat_thread-stops_example :
    (trace : Trace) × (last : Sessions) × (s1 : Server) × (server_stop (signalled 9 []) clients busy
      ≡ ok (trace, last, s1))
    × (chat_thread
          ((104 ∷ 105 ∷ []) ∷ stop_command ∷ stop_command ∷ [])
          (signalled 9 [])
          clients
          busy
        ≡ ok (trace, last, s1))
    × (s1.running ≡ false)
    × (s1.network.tcp.connections ≡ [])
    × ((conn : ℕ) → s1.network.tcp.allocated conn ≡ false)
chat_thread-stops_example =
    chat_thread-stops ((104 ∷ 105 ∷ []) ∷ []) (stop_command ∷ []) busy 3 7 9 [] clients (refl, tt)
      refl busy-Running refl
