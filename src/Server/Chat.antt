-- ===== src/Server/Chat.antt =====
-- The console: `chat_thread` stops the server once.
use mosss.Common.{
  ℕ, ◌≡◌, refl, ap, ◌∙◌, List, [], ◌∷◌, ◌++◌, append-nil, Bool, true, false, if◌then◌else◌, Result,
  ok, ◌>>=◌, All,
}
use mosss.Worker.Listen.{Round, Sessions, Trace}
use mosss.Worker.Listen.Flow.{handled}
use mosss.Worker.Thread.{Signal}
use mosss.Worker.Thread.Ends.{running_worker}
use mosss.Server.{Server, server_stop, chat_thread, equals, stop_command}
use mosss.Server.Stops.{Running, signalled, server_stop-clean}

-- A line that is not the command.
abbrev pub Chat : List ℕ → Type 0
Chat line = equals line stop_command ≡ false

not_running :
    (lines : List (List ℕ)) (calls : ℕ → Signal × List Round) (sessions : Sessions) (s : Server)
    → s.running ≡ false
    → chat_thread lines calls sessions s ≡ ok ([], sessions, s)
unfolding chat_thread
not_running [] calls sessions s h = rw h refl
not_running (line ∷ lines) calls sessions s h = rw h refl

-- What is left to do at the command.
abbrev stopping :
    List (List ℕ)
    → (ℕ → Signal × List Round)
    → Sessions
    → Server
    → Result (Trace × Sessions × Server)
stopping lines calls sessions s = do
  (trace, sessions1, s1) ← server_stop calls sessions s
  (others, last, s2) ← chat_thread lines calls sessions1 s1
  ok (trace ++ others, last, s2)

talked :
    (line : List ℕ) (lines : List (List ℕ)) (calls : ℕ → Signal × List Round) (sessions : Sessions)
    (s : Server)
    → s.running ≡ true
    → Chat line
    → chat_thread (line ∷ lines) calls sessions s ≡ chat_thread lines calls sessions s
unfolding chat_thread
talked line lines calls sessions s runs chat =
    let stop = stopping lines calls sessions s in
    let on = chat_thread lines calls sessions s in
    ap
      (λ (b : Bool).
        if b then (if equals line stop_command then stop else on) else ok ([], sessions, s))
      runs
    ∙ ap (λ (b : Bool). if b then stop else on) chat

commanded :
    (lines : List (List ℕ)) (calls : ℕ → Signal × List Round) (sessions : Sessions) (s : Server)
    → s.running ≡ true
    → chat_thread (stop_command ∷ lines) calls sessions s ≡ stopping lines calls sessions s
unfolding chat_thread
commanded lines calls sessions s runs =
    ap (λ (b : Bool). if b then stopping lines calls sessions s else ok ([], sessions, s)) runs

chat_thread-once :
    (talk lines : List (List ℕ)) (calls : ℕ → Signal × List Round) (sessions last : Sessions)
    (s s1 : Server) (trace : Trace)
    → All Chat talk
    → s.running ≡ true
    → server_stop calls sessions s ≡ ok (trace, last, s1)
    → s1.running ≡ false
    → chat_thread (talk ++ (stop_command ∷ lines)) calls sessions s ≡ ok (trace, last, s1)
chat_thread-once [] lines calls sessions last s s1 trace chat runs stops over =
    commanded lines calls sessions s runs
    ∙ rw (stops, not_running lines calls last s1 over)
        (ap (λ t. ok (t, last, s1)) (append-nil trace))
chat_thread-once (line ∷ talk) lines calls sessions last s s1 trace chat runs stops over =
    let rest = chat_thread-once talk lines calls sessions last s s1 trace chat.1 runs stops over in
    talked line (talk ++ (stop_command ∷ lines)) calls sessions s runs chat.0 ∙ rest

-- Whatever is typed before, and whatever after: at the first line `stop` a server that runs, and whose
-- worker has no event of a client under way, stops, once; the thread ends, the list of connections is
-- empty, and no connection that was made still exists.
pub chat_thread-stops :
    (talk lines : List (List ℕ)) (s : Server) (fd epfd efd : ℕ) (rounds : List Round)
    (sessions : Sessions)
    → All Chat talk
    → s.running ≡ true
    → Running s fd (running_worker epfd)
    → handled rounds ≡ []
    → (trace : Trace) × (last : Sessions) × (s1 : Server) × (server_stop
          (signalled efd rounds)
          sessions
          s
        ≡ ok (trace, last, s1))
      × (chat_thread (talk ++ (stop_command ∷ lines)) (signalled efd rounds) sessions s
          ≡ ok (trace, last, s1))
      × (s1.running ≡ false)
      × (s1.network.tcp.connections ≡ [])
      × ((conn : ℕ) → s1.network.tcp.allocated conn ≡ false)
chat_thread-stops talk lines s fd epfd efd rounds sessions chat runs r quiet =
    let (trace, last, s1, stops, over, _, _, empty, all, _, _, _) =
      server_stop-clean s fd epfd efd rounds sessions r quiet in
    (
      trace,
      last,
      s1,
      stops,
      chat_thread-once talk lines (signalled efd rounds) sessions last s s1 trace chat runs stops
          over,
      over,
      empty,
      all,
    )
