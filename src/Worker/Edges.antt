-- ===== src/Worker/Edges.antt =====
-- The event in which a connection ends.
use mosss.Common.{◌≡◌, refl, ok, err, undefined, inl, inr, ◌⊎◌, none}
use mosss.Connection.{
  Connection, Handler, resolve_length_handler, transition_to_secondary_handler,
  copy_to_buffer_handler, resolve_length, transition_to_secondary, copy_to_buffer, process,
  run_handler, Recv, failed, closed,
}
use mosss.Worker.Session.{Io, Session}
use mosss.Worker.Events.{on_event}

run_handler-hangup :
    (h : Handler) (r : Recv) (c : Connection)
    → (r ≡ failed) ⊎ (r ≡ closed)
    → run_handler h r c ≡ ok none
unfolding resolve_length transition_to_secondary copy_to_buffer
run_handler-hangup resolve_length_handler r c (inl e) = rw e refl
run_handler-hangup resolve_length_handler r c (inr e) = rw e refl
run_handler-hangup transition_to_secondary_handler r c (inl e) = rw e refl
run_handler-hangup transition_to_secondary_handler r c (inr e) = rw e refl
run_handler-hangup copy_to_buffer_handler r c (inl e) = rw e refl
run_handler-hangup copy_to_buffer_handler r c (inr e) = rw e refl

-- Where `recv` fails or the client has closed the connection, the connection is deleted, and the
-- loop then asks it whether it is ready: the behaviour is undefined.
pub on_event-hangup :
    (io : Io) (r : Recv) (s : Session)
    → (r ≡ failed) ⊎ (r ≡ closed)
    → on_event io r s ≡ err undefined
unfolding on_event process
on_event-hangup io r s end = rw (run_handler-hangup s.conn.process_events r s.conn end) refl
