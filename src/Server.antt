-- ===== src/Server.antt =====
-- src/server.cpp: the tick loop, and the start and the stop of the server. The readings of the clock
-- (`nanotime`) are an argument, one after the other; a list that ends before the code does is
-- `no_fuel`. A `uint64_t` is a number below 2 ^ 64. `running` is read once for each tick.
pub mod Sleep
pub mod Pace
pub mod Starts
pub mod Stops
pub mod Life
pub mod Chat
pub mod Runs
use mosss.Worker.Listen.{Round, Sessions, Trace}
use mosss.Worker.Thread.{Signal}
use mosss.TcpServer.Threads.{Network, Setup, tcp_init, tcp_start, tcp_stop}
use mosss.Common.{
  Option, zero, suc, ◌++◌, ℕ, ◌+◌, ◌-◌, ◌*◌, ◌/◌, ◌%◌, ◌^◌, List, [], ◌∷◌, Bool, true, false, ltb,
  leb, ◌==◌, if◌then◌else◌, Result, ok, err, no_fuel, ◌>>=◌,
}

abbrev pub tick_time_nanos : ℕ
tick_time_nanos = 50_000_000

abbrev pub server_max_tick_catch_up : ℕ
server_max_tick_catch_up = 5

abbrev pub sleep_threshold : ℕ
sleep_threshold = 2000

abbrev pub nanotime : List ℕ → Result (ℕ × List ℕ)
nanotime [] = err no_fuel
nanotime (now ∷ clock) = ok (now, clock)

-- What `sleep` gives to `sleep_for` after the reading `now`, in milliseconds.
unfoldable pub naps : ℕ → ℕ → List ℕ
naps until now =
    let remaining_ns = until - now in
    if leb sleep_threshold remaining_ns then (remaining_ns / 2_000_000) ∷ [] else []

-- The arguments of `sleep_for`, and the readings that are left.
unfoldable pub sleep : ℕ → List ℕ → Result (List ℕ × List ℕ)
unfolding naps
sleep until [] = err no_fuel
sleep until (now ∷ clock) =
    let again = do (slept, rest) ← sleep until clock; ok (naps until now ++ slept, rest)
    in if ltb now until then again else ok ([], clock)

pub record Loop : Type 0 where
  pub ticks : ℕ
  pub base_time : ℕ

-- One round of `loop`, with the time at which the next one should begin.
unfoldable pub round : Loop → List ℕ → Result (Loop × List ℕ)
unfolding sleep
round l clock = do
  let ticks = (l.ticks + 1) % 2 ^ 64
  let next_start = (l.base_time + tick_time_nanos * ticks % 2 ^ 64) % 2 ^ 64
  (slept, clock1) ← sleep next_start clock
  (now, clock2) ← nanotime clock1
  let reset = do
    (base_time, clock3) ← nanotime clock2
    ok (record { ticks = 0; base_time = base_time }, clock3)
  if ltb ((next_start + tick_time_nanos * server_max_tick_catch_up) % 2 ^ 64) now
      then reset
      else ok (record { ticks = ticks; base_time = l.base_time }, clock2)

-- `n` rounds, while `running`.
unfoldable pub rounds : ℕ → Loop → List ℕ → Result (Loop × List ℕ)
rounds zero l clock = ok (l, clock)
rounds (suc n) l clock = do (l1, clock1) ← round l clock; rounds n l1 clock1

unfoldable pub loop : ℕ → List ℕ → Result (Loop × List ℕ)
loop n clock = do
  (base_time, clock1) ← nanotime clock
  rounds n (record { ticks = 0; base_time = base_time }) clock1

-- `running`, and what tcpserver.cpp keeps.
pub record Server : Type 0 where
  pub running : Bool
  pub network : Network

-- How `server_start` ends; after `started` the accepting thread, the chat thread and `loop` run.
pub data Start : Type 0 where
  already_running : Start
  init_failed : Start
  started : Start

abbrev init : Setup → Network → Bool × Network
init setup n = tcp_init setup n

unfoldable pub server_start : Setup → Server → Result (Start × Server)
server_start setup s =
    let (initialized, n) = init setup s.network in
    let go_on = (do n1 ← tcp_start n; ok (started, record { running = true; network = n1 })) in
    if s.running
    then ok (already_running, s)
    else if initialized
    then go_on
    else ok (init_failed, record { running = true; network = n })

-- With what the workers still send.
unfoldable pub server_stop :
    (ℕ → Signal × List Round) → Sessions → Server → Result (Trace × Sessions × Server)
server_stop calls sessions s = do
  (trace, last, n) ← tcp_stop calls sessions s.network
  ok (trace, last, record { running = false; network = n })

-- `in == "stop"`, on the characters' codes.
abbrev pub equals : List ℕ → List ℕ → Bool
equals [] [] = true
equals [] (y ∷ ys) = false
equals (x ∷ xs) [] = false
equals (x ∷ xs) (y ∷ ys) = if x == y then equals xs ys else false

abbrev pub stop_command : List ℕ
stop_command = 115 ∷ 116 ∷ 111 ∷ 112 ∷ []

-- `chat_thread`, for the lines that `std::getline` reads.
unfoldable pub chat_thread :
    List (List ℕ)
    → (ℕ → Signal × List Round)
    → Sessions
    → Server
    → Result (Trace × Sessions × Server)
chat_thread [] calls sessions s = if s.running then err no_fuel else ok ([], sessions, s)
chat_thread (line ∷ lines) calls sessions s =
    let ignored = chat_thread lines calls sessions s in
    let stopped = (do
      (trace, sessions1, s1) ← server_stop calls sessions s
      (others, last, s2) ← chat_thread lines calls sessions1 s1
      ok (trace ++ others, last, s2)) in
    if s.running
    then if equals line stop_command then stopped else ignored
    else ok ([], sessions, s)
