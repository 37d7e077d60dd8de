-- ===== src/Worker/Listen/Hangup.antt =====
-- The loop of a worker when a client hangs up.
use mosss.Common.{◌≡◌, refl, ap, ◌∙◌, List, ◌∷◌, ◌++◌, true, ok, err, undefined, some, ◌⊎◌}
use mosss.Connection.{failed, closed}
use mosss.Worker.Session.{Session}
use mosss.Worker.Edges.{on_event-hangup}
use mosss.Worker.Listen.{Occurrence, Round, Sessions, Trace, handle_event, listen}
use mosss.Worker.Listen.Flow.{handled, ends, flow, continue, flow-append, listen-flow}

-- `recv` fails, or the client has closed the connection.
abbrev pub HangsUp : Occurrence → Type 0
HangsUp e = (e.recv ≡ failed) ⊎ (e.recv ≡ closed)

handle_event-hangup :
    (e : Occurrence) (sessions : Sessions) (s : Session)
    → sessions e.conn ≡ some s
    → HangsUp e
    → handle_event e sessions ≡ err undefined
unfolding handle_event
handle_event-hangup e sessions s here end = rw (here, on_event-hangup e.io e.recv s end) refl

flow-hangup :
    (e : Occurrence) (events : List Occurrence) (sessions : Sessions) (s : Session)
    → sessions e.conn ≡ some s
    → HangsUp e
    → flow (e ∷ events) sessions ≡ err undefined
unfolding flow
flow-hangup e events sessions s here end = rw (handle_event-hangup e sessions s here end) refl

-- Where some round ends the loop, and of the events up to it `front` come first, all of which
-- return, and then comes one in which `recv` fails for a client that is still connected, or this
-- client has closed its connection, whatever comes after: the behaviour of the whole loop is
-- undefined, for this client and all others. The connection is deleted, and then the loop asks it
-- whether it is ready.
pub listen-hangup :
    (rounds : List Round) (sessions : Sessions) (front back : List Occurrence) (e : Occurrence)
    (x : Trace × Sessions) (s : Session)
    → ends rounds ≡ true
    → handled rounds ≡ front ++ (e ∷ back)
    → flow front sessions ≡ ok x
    → x.1 e.conn ≡ some s
    → HangsUp e
    → listen rounds sessions ≡ err undefined
listen-hangup rounds sessions front back e x s ended events before here end =
    listen-flow rounds sessions ended
    ∙ ap (λ es. flow es sessions) events
    ∙ flow-append front (e ∷ back) sessions
    ∙ ap (continue (flow (e ∷ back))) before
    ∙ ap (mosss.Worker.Listen.Flow.after x.0) (flow-hangup e back x.1 s here end)
