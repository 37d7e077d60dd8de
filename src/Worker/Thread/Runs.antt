-- ===== src/Worker/Thread/Runs.antt =====
-- A worker that ends while an event is under way, and one whose destructor gets no `eventfd`.
use mosss.Common.{ℕ, ◌≡◌, ◌≢◌, refl, List, [], ◌∷◌, true, false, ok, none, some}
use mosss.Worker.Listen.{Round, wait_failed, woken, Sessions, Trace}
use mosss.Worker.Listen.Flow.{handled}
use mosss.Worker.Listen.Clients.{own, sent, play, Returns}
use mosss.Worker.Listen.Runs.{clients, start, alone}
use mosss.Worker.Thread.{Descriptors, sent_signal, destroy}
use mosss.Worker.Thread.Ends.{running_worker, destroy-Returns, destroy-blocks}

abbrev under_way : List Round
under_way = woken (some start ∷ []) ∷ wait_failed ∷ []

abbrev open_fds : Descriptors
open_fds fd = true

destroy-Returns_example :
    (trace : Trace) × (last : Sessions) × (fds1 : Descriptors) × (destroy
        (record { efd = some 9; added = true; written = true })
        under_way
        clients
        open_fds
        (running_worker 7)
      ≡ ok (trace, last, fds1))
    × ((c : ℕ) → play (own c (handled under_way)) (clients c) ≡ ok (sent c trace, last c))
    × (fds1 7 ≡ false)
    × (fds1 9 ≡ false)
    × ((fd : ℕ) → fd ≢ 7 → fd ≢ 9 → fds1 fd ≡ open_fds fd)
destroy-Returns_example = destroy-Returns 7 9 under_way clients open_fds alone

destroy-blocks_example : ¬ Returns (
    destroy
      (record { efd = none; added = true; written = true })
      under_way
      clients
      open_fds
      (running_worker 7))
unfolding sent_signal
destroy-blocks_example =
    destroy-blocks 7 (record { efd = none; added = true; written = true }) under_way clients
      open_fds refl refl
