-- ===== src/Worker/Listen/Runs.antt =====
-- Two events, a failed wait and the null pointer.
use mosss.Common.{
  ℕ, ◌≡◌, refl, arith, List, [], ◌∷◌, ◌==◌, if◌then◌else◌, Bool-cases, inl, inr, ok, none, some,
  err, undefined,
}
use mosss.Connection.{received, closed, status_state}
use mosss.Worker.Session.{Session}
use mosss.Worker.Exchanges.{waits_with, waits_with-Fresh, takes}
use mosss.Worker.Socket.{on_event-waits, there_still}
use mosss.Connection.{process}
use mosss.Connection.Partial.{Step, process_event, resolve_length-Step}
use mosss.Varint.{decode}
use mosss.Memory.{update}
use mosss.Worker.Events.{on_event}
use mosss.Worker.Refused.{on_event-malformed}
use mosss.Worker.Listen.{
  Occurrence, Round, wait_failed, woken, Sessions, Trace, handle_event, batch, listen,
}
use mosss.Worker.Listen.Flow.{handled, flow}
use mosss.Worker.Listen.Hangup.{listen-hangup}
use mosss.Worker.Listen.Clients.{own, sent, play, Returns, listen-play}

abbrev client : Session
client = waits_with status_state

abbrev pub clients : Sessions
clients c = if 4 == c then some client else none

-- Two of the ten bytes of a ping.
abbrev pub start : Occurrence
start = record { conn = 4; io = takes 10; recv = received (9 ∷ 1 ∷ []) }

abbrev rounds : List Round
rounds = woken (some start ∷ []) ∷ wait_failed ∷ woken (none ∷ some start ∷ []) ∷ []

abbrev heard : Step (process_event (9 ∷ 1 ∷ []) client.conn) client.conn 0 (1 ∷ []) 8
unfolding decode
heard =
    resolve_length-Step client.conn 0 (9 ∷ 1 ∷ []) (1 ∷ []) 9 (waits_with-Fresh status_state)
      (omega arith, (omega arith, tt)) refl (omega arith) (omega arith) (omega arith)

abbrev waiting : Session
waiting = record client { conn = heard.after }

waits : on_event start.io start.recv client ≡ ok (some ([], waiting))
waits =
    on_event-waits client start.io start.recv heard.after
      (there_still (process start.recv client.conn) heard.after heard.returns) heard.complete

pub alone : (c : ℕ) → Returns (play (own c (handled rounds)) (clients c))
unfolding play
alone c = elim (Bool-cases (4 == c)) [
  | inl here ↦ (([], some waiting), rw (here, waits) refl)
  | inr other ↦ (([], clients c), rw other refl)
]

abbrev outcome : Trace × Sessions
outcome = ((4, []) ∷ [], update clients 4 (some waiting))

listened : listen rounds clients ≡ ok outcome
unfolding listen batch handle_event
listened = rw waits refl

listen-play_example : play (own 4 (handled rounds)) (clients 4) ≡ ok (sent 4 outcome.0, outcome.1 4)
listen-play_example = listen-play rounds clients outcome 4 refl listened

-- The client hangs up after the first two bytes.
abbrev quit : Occurrence
quit = record { conn = 4; io = takes 10; recv = closed }

abbrev cut_rounds : List Round
cut_rounds = woken (some start ∷ []) ∷ wait_failed ∷ woken (some quit ∷ none ∷ []) ∷ []

started : flow (start ∷ []) clients ≡ ok outcome
unfolding flow handle_event
started = rw waits refl

listen-hangup_example : listen cut_rounds clients ≡ err undefined
unfolding update
listen-hangup_example =
    listen-hangup cut_rounds clients (start ∷ []) [] quit outcome waiting refl refl started refl
      (inr refl)

-- Five bytes that all have a byte behind them.
on_event-malformed_example :
    on_event (takes 10) (received (0xff ∷ 0xff ∷ 0xff ∷ 0xff ∷ 0xff ∷ [])) client ≡ ok none
unfolding decode
on_event-malformed_example =
    on_event-malformed (takes 10) client 0 (0xff ∷ 0xff ∷ 0xff ∷ 0xff ∷ 0xff ∷ [])
      (waits_with-Fresh status_state)
      (omega arith, (omega arith, (omega arith, (omega arith, (omega arith, tt))))) (omega arith)
      refl
