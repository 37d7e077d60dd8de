-- ===== src/TcpServer/Accepts.antt =====
-- The accepting thread: whoever connects is on the list, in order.
use mosss.Common.{
  ℕ, ◌≡◌, refl, sym, ap, subst, ◌∙◌, List, [], ◌∷◌, ◌++◌, append_assoc, append-nil, Bool, true,
  false, ok, none, some,
}
use mosss.Memory.{update}
use mosss.Worker.Thread.{NetworkWorker}
use mosss.TcpServer.{TcpServer, accept_connection}
use mosss.TcpServer.Lifecycle.{Reached, joined, Reached-Tracked, accept_connection-Joined}
use mosss.TcpServer.Threads.{
  Network, array, next_worker, Turn, stopped, accepted, accept_connections,
}

-- The connections that are made until the loop ends.
abbrev pub arrivals : List Turn → List ℕ
arrivals [] = []
arrivals (stopped ∷ turns) = []
arrivals (accepted none address added ∷ turns) = arrivals turns
arrivals (accepted (some fd) address added ∷ turns) = address ∷ arrivals turns

-- The loop ends; until then `epoll_ctl` succeeds, and `new` returns no address of an object that exists.
abbrev pub Orderly : List Turn → (ℕ → Bool) → Type 0
Orderly [] allocated = true ≡ false
Orderly (stopped ∷ turns) allocated = Unit
Orderly (accepted none address added ∷ turns) allocated = Orderly turns allocated
Orderly (accepted (some fd) address added ∷ turns) allocated =
    (added ≡ true) × (allocated address ≡ false) × Orderly turns (update allocated address true)

pub record Accepted (turns : List Turn) (n : Network) : Type 0 where
  pub tcp : TcpServer
  pub returns : accept_connections turns n ≡ ok (record n { tcp = tcp })
  pub reached : Reached tcp
  pub listed : tcp.connections ≡ n.tcp.connections ++ arrivals turns
  pub socket : tcp.server_fd ≡ n.tcp.server_fd

next_worker-array :
    (n : Network) (w : NetworkWorker) (ws : List NetworkWorker)
    → n.workers ≡ array (w ∷ ws)
    → next_worker n ≡ ok w
unfolding next_worker
next_worker-array n w ws filled = rw filled refl

no_client :
    (address : ℕ) (added : Bool) (turns : List Turn) (n : Network)
    → accept_connections (accepted none address added ∷ turns) n ≡ accept_connections turns n
unfolding accept_connections accept_connection
no_client address added turns n = refl

one_client :
    (client_fd address : ℕ) (added : Bool) (turns : List Turn) (n : Network) (w : NetworkWorker)
    (t1 : TcpServer)
    → next_worker n ≡ ok w
    → accept_connection (some client_fd) address added n.tcp ≡ ok t1
    → accept_connections (accepted (some client_fd) address added ∷ turns) n
      ≡ accept_connections turns (record n { tcp = t1 })
unfolding accept_connections
one_client client_fd address added turns n w t1 some_worker here = rw (some_worker, here) refl

-- With a worker, and as long as no call fails that a connection needs, the accepting thread puts each
-- client that connects at the end of the list, failed calls of `accept` between them or not.
pub accept_connections-Accepted :
    (turns : List Turn) (n : Network) (w : NetworkWorker) (ws : List NetworkWorker)
    → n.workers ≡ array (w ∷ ws)
    → Reached n.tcp
    → Orderly turns n.tcp.allocated
    → Accepted turns n
unfolding accept_connections
accept_connections-Accepted [] n w ws filled reached orderly = absurd cc
accept_connections-Accepted (stopped ∷ turns) n w ws filled reached orderly = record {
  tcp = n.tcp;
  returns = refl;
  reached = reached;
  listed = sym (append-nil _);
  socket = refl;
}
accept_connections-Accepted (accepted none address added ∷ turns) n w ws filled reached orderly =
    let rest = accept_connections-Accepted turns n w ws filled reached orderly in
    record {
      tcp = rest.tcp;
      returns = no_client address added turns n ∙ rest.returns;
      reached = rest.reached;
      listed = rest.listed;
      socket = rest.socket;
    }
accept_connections-Accepted (accepted (some fd) address added ∷ turns) n w ws filled reached
      orderly =
    let j = accept_connection-Joined n.tcp fd address (Reached-Tracked n.tcp reached) orderly.1 in
    let here : accept_connection (some fd) address added n.tcp ≡ ok j.after =
      ap (λ (b : Bool). accept_connection (some fd) address b n.tcp) orderly.0 ∙ j.returns in
    let rest =
      accept_connections-Accepted turns (record n { tcp = j.after }) w ws filled
        (joined n.tcp fd address j.after reached orderly.1 j.returns)
        (subst (Orderly turns) (sym j.allocated) orderly.2) in
    record {
      tcp = rest.tcp;
      returns =
          one_client fd address added turns n w j.after (next_worker-array n w ws filled) here
          ∙ rest.returns;
      reached = rest.reached;
      listed =
          rest.listed
          ∙ ap (λ xs. xs ++ arrivals turns) j.connections
          ∙ append_assoc n.tcp.connections (address ∷ []) (arrivals turns);
      socket = rest.socket ∙ j.socket;
    }
