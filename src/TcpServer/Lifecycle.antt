-- ===== src/TcpServer/Lifecycle.antt =====
-- Connections that come and go: the list and the objects stay in step.
use mosss.Common.{
  ℕ, ◌≡◌, refl, sym, ap, subst, ◌∙◌, List, [], ◌∷◌, ◌++◌, Bool, true, false, ==_self, Result, ok,
  err, undefined, ◌>>=◌, Option, some, arith,
}
use mosss.Memory.{update}
use mosss.Memory.Copy.{update_self}
use mosss.TcpServer.{
  TcpServer, disconnect, delete_each, disconnect_all, connect, push_back, accept_connection,
}
use mosss.TcpServer.Connections.{
  count, bit, Tracked, erase_found, erase_missing, count-append, allocated_delete, bit-update,
}

-- `result` is a return without the connection `conn`, the others being as they were.
pub record Dropped (t : TcpServer) (conn : ℕ) (result : Result TcpServer) : Type 0 where
  pub after : TcpServer
  pub returns : result ≡ ok after
  pub tracked : Tracked after
  pub allocated : after.allocated ≡ update t.allocated conn false

-- `disconnect` of a connection that exists deletes it and takes it off the list.
pub disconnect-Dropped :
    (t : TcpServer) (conn : ℕ)
    → Tracked t
    → t.allocated conn ≡ true
    → Dropped t conn (disconnect conn t)
unfolding disconnect
disconnect-Dropped t conn tracked h =
    let (left, e, counts) =
      erase_found conn t.connections (ground (arith, tracked.exact conn, h)) in
    record {
      after = record t { connections = left; allocated = update t.allocated conn false };
      returns = rw (e, allocated_delete conn t.allocated h) refl;
      tracked = record {
        exact = λ c. ground (arith, bit-update t.allocated conn false c, counts c, tracked.exact c);
      };
      allocated = refl;
    }

-- `result` is a return with the connection `conn` at the end of the list.
pub record Joined (t : TcpServer) (conn : ℕ) (result : Result TcpServer) : Type 0 where
  pub after : TcpServer
  pub returns : result ≡ ok after
  pub tracked : Tracked after
  pub connections : after.connections ≡ t.connections ++ (conn ∷ [])
  pub socket : after.server_fd ≡ t.server_fd
  pub allocated : after.allocated ≡ update t.allocated conn true

pub accept_connection-Joined :
    (t : TcpServer) (client_fd address : ℕ)
    → Tracked t
    → t.allocated address ≡ false
    → Joined t address (accept_connection (some client_fd) address true t)
unfolding accept_connection connect push_back count
accept_connection-Joined t client_fd address tracked fresh = record {
  after = record t {
    connections = t.connections ++ (address ∷ []);
    allocated = update t.allocated address true;
  };
  returns = refl;
  tracked = record {
    exact = λ c. ground (
      arith,
      count-append c t.connections (address ∷ []),
      tracked.exact c,
      fresh,
      bit-update t.allocated address true c,
    );
  };
  connections = refl;
  socket = refl;
  allocated = refl;
}

-- Where `epoll_ctl` fails, the new connection is disconnected before it is in the list, and
-- the end of the list is erased: the behaviour is undefined.
pub accept_connection-failure :
    (t : TcpServer) (client_fd address : ℕ)
    → Tracked t
    → t.allocated address ≡ false
    → accept_connection (some client_fd) address false t ≡ err undefined
unfolding accept_connection connect disconnect
accept_connection-failure t client_fd address tracked fresh =
    rw (erase_missing address t.connections (ground (arith, tracked.exact address, fresh))) refl

-- A client that hangs up: where the accepting thread has put its connection on the list, the
-- worker's `disconnect` takes it off again; where the worker is first, its behaviour is undefined.
pub disconnect-race :
    (t : TcpServer) (client_fd address : ℕ)
    → Tracked t
    → t.allocated address ≡ false
    → (Dropped
        (record t { allocated = update t.allocated address true })
        address
        (accept_connection (some client_fd) address true t >>= disconnect address))
      × ((connect address true t >>= λ a. disconnect address a.1 >>= λ t1. ok (push_back a.0 t1))
          ≡ err undefined)
disconnect-race t client_fd address tracked fresh =
    let j = accept_connection-Joined t client_fd address tracked fresh in
    let there : j.after.allocated address ≡ true =
      ap (λ f. f address) j.allocated ∙ update_self t.allocated address true in
    let d = disconnect-Dropped j.after address j.tracked there in
    let missing : disconnect address (record t { allocated = update t.allocated address true })
        ≡ err undefined =
      unfold disconnect in
      rw (erase_missing address t.connections (ground (arith, tracked.exact address, fresh)))
        refl in
    (
      record {
        after = d.after;
        returns = rw j.returns d.returns;
        tracked = d.tracked;
        allocated = d.allocated ∙ ap (λ f. update f address false) j.allocated;
      },
      unfold connect in rw missing refl,
    )

delete_each_all :
    (xs : List ℕ) (allocated : ℕ → Bool)
    → ((c : ℕ) → count c xs ≡ bit (allocated c))
    → (left : ℕ → Bool) × (delete_each xs allocated ≡ ok left) × ((c : ℕ) → left c ≡ false)
unfolding delete_each count
delete_each_all [] allocated exact = (allocated, refl, λ c. ground (arith, exact c))
delete_each_all (x ∷ xs) allocated exact =
    let there : allocated x ≡ true = ground (arith, exact x, ==_self x) in
    let (left, e, all) =
      delete_each_all xs (update allocated x false)
        (λ c. ground (arith, exact c, there, bit-update allocated x false c)) in
    (left, rw (allocated_delete x allocated there) e, all)

-- What accepted connections and disconnects lead to from a server with no connection.
pub data Reached : TcpServer → Type 0 where
  begun :
      (server_fd : Option ℕ)
      → Reached (record { server_fd = server_fd; connections = []; allocated = λ c. false })
  joined :
      (t : TcpServer) (client_fd address : ℕ) (t1 : TcpServer)
      → Reached t
      → t.allocated address ≡ false
      → accept_connection (some client_fd) address true t ≡ ok t1
      → Reached t1
  left :
      (t : TcpServer) (conn : ℕ) (t1 : TcpServer)
      → Reached t
      → t.allocated conn ≡ true
      → disconnect conn t ≡ ok t1
      → Reached t1

ok_injective : {t t1 : TcpServer} → ok t ≡ ok t1 → t ≡ t1
ok_injective h = cc

pub Reached-Tracked : (t : TcpServer) → Reached t → Tracked t
unfolding count
Reached-Tracked t (begun fd) = record { exact = λ c. refl }
Reached-Tracked t (joined t0 client_fd address t1 before fresh e) =
    let j = accept_connection-Joined t0 client_fd address (Reached-Tracked t0 before) fresh in
    subst Tracked (ok_injective (sym j.returns ∙ e)) j.tracked
Reached-Tracked t (left t0 conn t1 before there e) =
    let d = disconnect-Dropped t0 conn (Reached-Tracked t0 before) there in
    subst Tracked (ok_injective (sym d.returns ∙ e)) d.tracked

-- Whatever clients came and went, one after the other: `disconnect_all` returns, the list is then
-- empty, and no connection that was made still exists; each was deleted once.
pub disconnect_all-clean :
    (t : TcpServer)
    → Reached t
    → (t1 : TcpServer) × (disconnect_all t ≡ ok t1)
      × (t1.connections ≡ [])
      × ((conn : ℕ) → t1.allocated conn ≡ false)
unfolding disconnect_all
disconnect_all-clean t reached =
    let (none_left, e, all) =
      delete_each_all t.connections t.allocated (Reached-Tracked t reached).exact in
    (record t { connections = []; allocated = none_left }, rw e refl, refl, all)
