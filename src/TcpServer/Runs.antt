-- ===== src/TcpServer/Runs.antt =====
-- A server with one client: the theorems on the list of connections at hand.
use mosss.Common.{◌≡◌, refl, arith, [], ◌∷◌, true, false, some, ok, err, undefined, ◌>>=◌}
use mosss.Memory.{update}
use mosss.TcpServer.{TcpServer, accept_connection, connect, push_back, disconnect}
use mosss.TcpServer.Connections.{Tracked, count}
use mosss.TcpServer.Lifecycle.{Dropped, accept_connection-failure, disconnect-race}

abbrev one_client : TcpServer
one_client = record {
  server_fd = some 3;
  connections = 100 ∷ [];
  allocated = update (λ c. false) 100 true;
}

one_client-Tracked : Tracked one_client
unfolding count update
one_client-Tracked = record { exact = λ c. ground arith }

fresh : one_client.allocated 200 ≡ false
unfolding update
fresh = refl

accept_connection-failure_example : accept_connection (some 5) 200 false one_client ≡ err undefined
accept_connection-failure_example =
    accept_connection-failure one_client 5 200 one_client-Tracked fresh

disconnect-race_example :
    (Dropped
      (record one_client { allocated = update one_client.allocated 200 true })
      200
      (accept_connection (some 5) 200 true one_client >>= disconnect 200))
    × ((connect 200 true one_client >>= λ a. disconnect 200 a.1 >>= λ t1. ok (push_back a.0 t1))
        ≡ err undefined)
disconnect-race_example = disconnect-race one_client 5 200 one_client-Tracked fresh
