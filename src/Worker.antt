-- ===== src/Worker.antt =====
-- network/worker.cpp: the handlers of the packets, the tables that list them, and what the loop of
-- `listen` does with one event. A `Session` is a Connection with all its members: the receiving
-- side, the write buffer and the player. The heap is that of `rbuf`; a call on `wbuf` borrows it. A
-- handler is given the results of the calls of `writev`: `io k` for its `k`-th packet. It returns the
-- bytes that the kernel took. Log messages and `std::cout` are left out, and strings are not freed.
pub mod Session
pub mod Handlers
pub mod Tables
pub mod Events
pub mod Listen
pub mod Thread
pub mod Runs
pub mod Exchanges
pub mod Login
pub mod Edges
pub mod Refused
pub mod History
pub mod Moves
pub mod Protocol
pub mod States
pub mod Dispatch
pub mod Ping
pub mod Kept
pub mod Parsed
pub mod Socket
