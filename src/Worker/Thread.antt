-- ===== src/Worker/Thread.antt =====
-- A `NetworkWorker` from its constructor to its destructor (src/network/worker.cpp): its epoll
-- descriptor and its thread. The descriptors of the process are a function, true where one is open;
-- what `epoll_create1`, `eventfd`, `epoll_ctl` and `write` return is an argument.
pub mod Ends
pub mod Runs
use mosss.Common.{
  ℕ, List, [], ◌∷◌, ◌++◌, Bool, true, false, if◌then◌else◌, Result, ok, err, undefined,
  malformed_varint, buffer_overflow, length_error, no_fuel, terminated, blocked, system_error,
  ◌>>=◌, Option, none, some,
}
use mosss.Memory.{update}
use mosss.Worker.Listen.{Round, woken, Sessions, Trace, listen}

pub record NetworkWorker : Type 0 where
  pub epfd : Option ℕ
  -- Whether `runner` is joinable.
  pub runner : Bool

abbrev pub Descriptors : Type 0
Descriptors = ℕ → Bool

abbrev pub opened : Option ℕ → Descriptors → Descriptors
opened none fds = fds
opened (some fd) fds = update fds fd true

abbrev pub closed : Option ℕ → Descriptors → Descriptors
closed none fds = fds
closed (some fd) fds = update fds fd false

-- The constructor, for what `epoll_create1` returns.
unfoldable pub create : Option ℕ → Descriptors → NetworkWorker × Descriptors
create epfd fds = (record { epfd = epfd; runner = false }, opened epfd fds)

-- A `std::thread` that is joinable cannot be assigned to.
unfoldable pub start : NetworkWorker → Result NetworkWorker
start w = if w.runner then err terminated else ok (record w { runner = true })

-- What the destructor's calls return: `eventfd`, and whether `epoll_ctl` and `write` succeed.
pub record Signal : Type 0 where
  pub efd : Option ℕ
  pub added : Bool
  pub written : Bool

unfoldable pub sent_signal : Option ℕ → Bool → Bool → Bool
sent_signal none added written = false
sent_signal (some efd) added written = if added then written else false

-- What `epoll_wait` still returns to the thread, after the rounds that were under way: the null
-- pointer, or nothing, for ever.
unfoldable pub remaining : Signal → List Round → List Round
remaining signal rounds =
    rounds
    ++ (if sent_signal signal.efd signal.added signal.written then woken (none ∷ []) ∷ [] else [])

-- `runner.join()`, where the thread does this much.
unfoldable pub join : Result (Trace × Sessions) → Result (Trace × Sessions)
join (ok done) = ok done
join (err no_fuel) = err blocked
join (err undefined) = err undefined
join (err malformed_varint) = err malformed_varint
join (err buffer_overflow) = err buffer_overflow
join (err length_error) = err length_error
join (err terminated) = err terminated
join (err blocked) = err blocked
join (err system_error) = err system_error

-- The destructor, with what the thread sends meanwhile. It does not throw: `join` of no thread, or
-- the end of a `runner` that is joinable, is `std::terminate`.
unfoldable pub destroy :
    Signal
    → List Round
    → Sessions
    → Descriptors
    → NetworkWorker
    → Result (Trace × Sessions × Descriptors)
destroy signal rounds sessions fds w = elim w.epfd [
  | none ↦ if w.runner then err terminated else ok ([], sessions, fds)
  | some epfd ↦ do
    (trace, sessions1) ←
        (if w.runner then join (listen (remaining signal rounds) sessions) else err terminated)
    ok (trace, sessions1, closed (some epfd) (closed signal.efd (opened signal.efd fds)))
]
