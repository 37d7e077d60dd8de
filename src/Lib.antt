-- ===== src/Lib.antt =====
-- Verification of MOSSS, a Minecraft server: from the socket to the packet handlers and back, the
-- list of connections, the tick loop and the chunks that a player asks for.
--
-- The accepting thread puts each client on the list of connections and gives it to a worker. The
-- worker waits for events. A client's bytes come in through `Connection::process_events`, one of
-- three handlers that call `recv` and fill the primary buffer of the connection, or a secondary one
-- for a packet that does not fit. The length in front of a packet is decoded as it comes in
-- (`ReadBuffer::read_length`); when the packet is there, its id picks a handler from the table of the
-- connection's state (worker.cpp), which reads the fields (`ReadBuffer::read_varint` and the others),
-- may change the state, and may answer. An answer is written into the connection's `WriteBuffer`:
-- numbers into a buffer that the object owns, strings as iovecs that point at the caller's memory.
-- `WriteBuffer::iov` puts the length of the packet in front, and `Connection::write_wbuf` gives the
-- iovecs to `writev`. Beside all this `loop` runs a tick every 50 ms.
--
-- Which file models which part (paths from the root of the repository):
--   Memory       blocks of `char`s, the pointers into them, `new[]` and `delete[]`, as the language
--                defines them. What the language leaves undefined is the result `err undefined`.
--                Memory/Holds, Memory/Copy and Memory/Place are the lemmas on loads, stores, copies
--                and the strings that the program makes.
--   Bytes        the bytes of an integer on a little-endian machine, `std::byteswap`, `>>` on signed
--                integers. Bytes/Order is about the big-endian order.
--   Varint       the variable-length integers of the protocol, described without the code.
--   ReadBuffer   src/network/readbuffer.cpp, headers/network/readbuffer.hpp, ivec.hpp and
--                buffer_helper.hpp. Below it: Stream (what is left to be read), Varints, Numbers,
--                Strings, Lengths, Waits and Resume (`read_length`), Overflow and Bounds (errors).
--   WriteBuffer  src/network/writebuffer.cpp, headers/network/writebuffer.hpp. Below it: Invariant
--                (the layout of the buffer and what the iovecs list), Capacity (`ensure_capacity`),
--                Put and Numbers (fixed sizes), Varints, Pieces, Iovecs and Strings (iovecs), Frame (`iov`),
--                End (the destructor).
--   Clientbound  the sending half of src/network/connection.cpp, with the ids of
--                headers/network/clientbound_packet_ids.hpp. Below it: Fields (packets as the
--                protocol describes them), Packets (their layout), Delivery (`write_wbuf` when
--                one `writev` takes all), Splits, Rounds and Partial (when it takes several, or
--                fails), Pong (the answer to a ping, sent), Slots (the array behind the pieces) and
--                Success (`login_success`, sent).
--   Connection   the receiving half of src/network/connection.cpp. Below it: Receive (the first event
--                of a packet that fits), Partial and Split (its other events), Large, Second, Freed and
--                Whole (a packet in two buffers), Overflow and Surplus (writes past the primary buffer),
--                Keeps.
--   Worker       src/network/worker.cpp. Below it: Session (what a handler works on), Handlers, Tables
--                and Events (the loop's body) are the code; Dispatch, States, Protocol, Moves and
--                History are about the states of a connection, Ping and Login about answers, Kept,
--                Parsed and Socket about an answer from the events to `reset`, Edges and Refused about
--                the end of a connection. Listen is the whole loop over `epoll_wait`; below it Flow (the
--                rounds as one list of events), Clients (what the loop is for one client) and Hangup. Thread is
--                a worker from its constructor to its destructor, with Ends (when the latter returns).
--   TcpServer    src/network/tcpserver.cpp: the list of connections, with Connections and Lifecycle;
--                Threads is the start and the stop, with the loop of `accept_connections`, which
--                Accepts is about, and `configure_fd` (Flags).
--   Server       src/server.cpp. Below it: Sleep and Pace (the tick loop), Starts, Stops and Life (the
--                server from its start to its end), Chat (the console).
--   ChunkCache   src/world/chunk_cache.cpp, headers/math/position.hpp. Below it: Diamond.
--   Wire         the packets of Clientbound and the reads of ReadBuffer as the two ends of a connection:
--                Reads, Items and Packets (the layout of each packet), Trip.
--   Common       names of the library passed on, tests, lists, outcomes and the laws of bits.
-- The modules named Runs, and Worker/Exchanges, hold concrete buffers and the theorems applied to them.
--
-- How the code is modelled:
--   * A function takes the state of its object and returns the new one in `Result`: `ok`, or an
--     `Error`, which is an exception of the code, `undefined`, `terminated` (`std::terminate`),
--     `blocked` (a `join` without end), or `no_fuel`.
--   * The memory is a field `heap` of the object that is looked at; a theorem about two objects
--     names the memory that they share.
--   * An integer of w bits is its bit pattern, a number below 2 ^ w, and floating-point values are
--     their bit patterns too.
--   * The loops of `read_varint` and `read_length` have four rounds of fuel, and `write_varint` and
--     `write_varlong` five and nine: the theorems that they return show that it is enough, and
--     `write_varint-negative` that for negative values no fuel is. The loop of `write_wbuf` runs on
--     the list of the results of `writev`, and its inner loop on the elements of the array.
--   * What the system does (`recv`, `writev`, `accept`, `epoll_ctl`, the clock, the address that `new`
--     returns for a connection) is an argument.
--   * `sleep` runs on the list of the readings of the clock, `loop` for a number of ticks, and the
--     loops of the threads on the list of what `epoll_wait` and `accept` return: a list that ends
--     before the loop does is `no_fuel`, and to a thread that joins it, `blocked`. `TcpServer` and the
--     handlers run one after the other, in the order that a theorem gives; what a worker has under way
--     when the server stops is an argument of `server_stop`.
--
-- Not modelled: what a handler logs, other interleavings of the threads than those above, what
-- `request_chunks` prints, the classes without behaviour (headers/world, headers/entity, headers/math
-- but for the chunk of a position), the logger, and the key that OpenSSL makes. `~Connection` is left
-- out, but for which connections exist; the functions that readbuffer.hpp and connection.hpp declare
-- and nothing defines have no model.
pub mod Common
pub mod Memory
pub mod Bytes
pub mod Varint
pub mod ReadBuffer
pub mod WriteBuffer
pub mod Clientbound
pub mod Connection
pub mod Worker
pub mod TcpServer
pub mod Server
pub mod ChunkCache
pub mod Wire
