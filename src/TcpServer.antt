-- ===== src/TcpServer.antt =====
-- src/network/tcpserver.cpp, and `NetworkWorker::connect` of src/network/worker.cpp: the list of
-- connections. A `Connection*` is a number; `allocated` says which objects exist. What the system
-- calls return, and the address that `new` returns, are arguments.
pub mod Connections
pub mod Lifecycle
pub mod Threads
pub mod Accepts
pub mod Flags
pub mod Runs
use mosss.Common.{
  ℕ, List, [], ◌∷◌, ◌++◌, Bool, true, false, ◌==◌, if◌then◌else◌, Result, ok, err, undefined, ◌>>=◌,
  Option, none, some,
}
use mosss.Memory.{update}

pub record TcpServer : Type 0 where
  pub server_fd : Option ℕ
  pub connections : List ℕ
  pub allocated : ℕ → Bool

-- `connections.erase(std::find(…))`; without the element this erases the end.
unfoldable pub erase : ℕ → List ℕ → Result (List ℕ)
erase conn [] = err undefined
erase conn (c ∷ rest) =
    let others = (do left ← erase conn rest; ok (c ∷ left)) in if c == conn then ok rest else others

-- `delete conn`.
unfoldable pub delete : ℕ → (ℕ → Bool) → Result (ℕ → Bool)
delete conn allocated = if allocated conn then ok (update allocated conn false) else err undefined

unfoldable pub disconnect : ℕ → TcpServer → Result TcpServer
unfolding erase delete
disconnect conn t = do
  connections ← erase conn t.connections
  allocated ← delete conn t.allocated
  ok (record t { connections = connections; allocated = allocated })

unfoldable pub delete_each : List ℕ → (ℕ → Bool) → Result (ℕ → Bool)
unfolding delete
delete_each [] allocated = ok allocated
delete_each (conn ∷ rest) allocated = delete conn allocated >>= delete_each rest

unfoldable pub disconnect_all : TcpServer → Result TcpServer
unfolding delete_each
disconnect_all t = do
  allocated ← delete_each t.connections t.allocated
  ok (record t { connections = []; allocated = allocated })

-- `NetworkWorker::connect`: `new` returns `address`, and `added` says whether `epoll_ctl` succeeds.
unfoldable pub connect : ℕ → Bool → TcpServer → Result (Option ℕ × TcpServer)
unfolding disconnect
connect address added t =
    let t1 = record t { allocated = update t.allocated address true } in
    let failure = (do t2 ← disconnect address t1; ok (none, t2)) in
    if added then ok (some address, t1) else failure

-- `connections.push_back(conn)`, where there is a connection.
unfoldable pub push_back : Option ℕ → TcpServer → TcpServer
push_back none t = t
push_back (some conn) t = record t { connections = t.connections ++ (conn ∷ []) }

-- The body of the loop of `accept_connections`, for the value of `accept`.
unfoldable pub accept_connection : Option ℕ → ℕ → Bool → TcpServer → Result TcpServer
unfolding connect push_back
accept_connection none address added t = ok t
accept_connection (some client_fd) address added t = do
  (conn, t1) ← connect address added t
  ok (push_back conn t1)

-- Without a socket there are no clients to disconnect.
abbrev pub disconnect_clients : Option ℕ → TcpServer → Result TcpServer
disconnect_clients none t = ok t
disconnect_clients (some fd) t = disconnect_all t
