-- ===== src/Worker/Listen/Flow.antt =====
-- The rounds of the loop as one list of events.
use mosss.Common.{
  ℕ, ◌≡◌, refl, sym, ap, ◌∙◌, List, [], ◌∷◌, ◌++◌, append_assoc, append-nil, Bool-cases, inl, inr,
  Bool, true, false, if◌then◌else◌, Result, ok, err, ◌>>=◌, Option, none, some,
}
use mosss.Worker.Listen.{
  Occurrence, Round, stopped, wait_failed, woken, Sessions, Trace, handle_event, batch, listen,
}

-- The events before the null pointer.
abbrev pub before : List (Option Occurrence) → List Occurrence
before [] = []
before (none ∷ events) = []
before (some e ∷ events) = e ∷ before events

abbrev pub over : List (Option Occurrence) → Bool
over [] = false
over (none ∷ events) = true
over (some e ∷ events) = over events

-- The events that the loop comes to.
abbrev pub handled : List Round → List Occurrence
handled [] = []
handled (stopped ∷ rounds) = []
handled (wait_failed ∷ rounds) = handled rounds
handled (woken events ∷ rounds) = before events ++ (if over events then [] else handled rounds)

-- Among the rounds is one that ends the loop.
abbrev pub ends : List Round → Bool
ends [] = false
ends (stopped ∷ rounds) = true
ends (wait_failed ∷ rounds) = ends rounds
ends (woken events ∷ rounds) = if over events then true else ends rounds

-- What came out so far, and what comes out from then on.
abbrev pub after : Trace → Result (Trace × Sessions) → Result (Trace × Sessions)
after outs (ok a) = ok (outs ++ a.0, a.1)
after outs (err e) = err e

-- One event after the other.
unfoldable pub flow : List Occurrence → Sessions → Result (Trace × Sessions)
flow [] sessions = ok ([], sessions)
flow (e ∷ events) sessions = do
  (out, sessions1) ← handle_event e sessions
  after ((e.conn, out) ∷ []) (flow events sessions1)

abbrev pub continue :
    (Sessions → Result (Trace × Sessions)) → Result (Trace × Sessions) → Result (Trace × Sessions)
continue k (ok a) = after a.0 (k a.1)
continue k (err e) = err e

after-nothing : (r : Result (Trace × Sessions)) → after [] r ≡ r
after-nothing (ok a) = refl
after-nothing (err e) = refl

after-after :
    (outs others : Trace) (r : Result (Trace × Sessions))
    → after outs (after others r) ≡ after (outs ++ others) r
after-after outs others (ok a) = ap (λ o. ok (o, a.1)) (sym (append_assoc outs others a.0))
after-after outs others (err e) = refl

after-continue :
    (outs : Trace) (k : Sessions → Result (Trace × Sessions)) (r : Result (Trace × Sessions))
    → after outs (continue k r) ≡ continue k (after outs r)
after-continue outs k (ok a) = after-after outs a.0 (k a.1)
after-continue outs k (err e) = refl

pub flow-append :
    (xs ys : List Occurrence) (sessions : Sessions)
    → flow (xs ++ ys) sessions ≡ continue (flow ys) (flow xs sessions)
unfolding flow
flow-append [] ys sessions = sym (after-nothing (flow ys sessions))
flow-append (x ∷ xs) ys sessions = go (handle_event x sessions) (flow-append xs ys)
  where
    go :
        (r : Result (List ℕ × Sessions))
        → ((s : Sessions) → flow (xs ++ ys) s ≡ continue (flow ys) (flow xs s))
        → (r >>= λ b. after ((x.conn, b.0) ∷ []) (flow (xs ++ ys) b.1))
          ≡ continue (flow ys) (r >>= λ b. after ((x.conn, b.0) ∷ []) (flow xs b.1))
    go (err e) ih = refl
    go (ok b) ih =
        ap (after ((x.conn, b.0) ∷ [])) (ih b.1)
        ∙ after-continue ((x.conn, b.0) ∷ []) (flow ys) (flow xs b.1)

-- What the inner loop adds.
abbrev with_over : Bool → Result (Trace × Sessions) → Result (Bool × Trace × Sessions)
with_over b (ok a) = ok (b, a.0, a.1)
with_over b (err e) = err e

batch-flow :
    (events : List (Option Occurrence)) (sessions : Sessions)
    → batch events sessions ≡ with_over (over events) (flow (before events) sessions)
unfolding batch flow
batch-flow [] sessions = refl
batch-flow (none ∷ events) sessions = refl
batch-flow (some x ∷ events) sessions = go (handle_event x sessions) (batch-flow events)
  where
    last :
        (out : ℕ × List ℕ) (r : Result (Trace × Sessions))
        → (with_over (over events) r >>= λ a. ok (a.0, out ∷ a.1, a.2))
          ≡ with_over (over events) (after (out ∷ []) r)
    last out (ok a) = refl
    last out (err e) = refl

    go :
        (r : Result (List ℕ × Sessions))
        → ((s : Sessions) → batch events s ≡ with_over (over events) (flow (before events) s))
        → (r >>= λ b. batch events b.1 >>= λ a. ok (a.0, (x.conn, b.0) ∷ a.1, a.2))
          ≡ with_over
              (over events)
              (r >>= λ b. after ((x.conn, b.0) ∷ []) (flow (before events) b.1))
    go (err e) ih = refl
    go (ok b) ih =
        ap (λ m. m >>= λ a. ok (a.0, (x.conn, b.0) ∷ a.1, a.2)) (ih b.1)
        ∙ last (x.conn, b.0) (flow (before events) b.1)

-- Where a round ends the loop, it has handled the events up to it, one after the other.
pub listen-flow :
    (rounds : List Round) (sessions : Sessions)
    → ends rounds ≡ true
    → listen rounds sessions ≡ flow (handled rounds) sessions
unfolding listen
listen-flow [] sessions h = cc
listen-flow (stopped ∷ rounds) sessions h = unfold flow in refl
listen-flow (wait_failed ∷ rounds) sessions h = listen-flow rounds sessions h
listen-flow (woken events ∷ rounds) sessions h = elim (Bool-cases (over events)) [
  | inl e ↦
      ap (λ r. r >>= rest) (batch-flow events sessions ∙ ap (λ b. with_over b front) e)
      ∙ jumps front
      ∙ ap (λ es. flow es sessions) (sym (append-nil (before events)))
      ∙ ap (λ (b : Bool). flow (before events ++ (if b then [] else handled rounds)) sessions)
          (sym e)
  | inr e ↦
      ap (λ r. r >>= rest) (batch-flow events sessions ∙ ap (λ b. with_over b front) e)
      ∙ goes_on front (λ s.
        listen-flow rounds s (sym (ap (λ (b : Bool). if b then true else ends rounds) e) ∙ h))
      ∙ sym (flow-append (before events) (handled rounds) sessions)
      ∙ ap (λ (b : Bool). flow (before events ++ (if b then [] else handled rounds)) sessions)
          (sym e)
]
  where
    front : Result (Trace × Sessions)
    front = flow (before events) sessions

    rest : Bool × Trace × Sessions → Result (Trace × Sessions)
    rest x = if x.0 then ok (x.1, x.2) else (listen rounds x.2 >>= λ a. ok (x.1 ++ a.0, a.1))

    jumps : (r : Result (Trace × Sessions)) → (with_over true r >>= rest) ≡ r
    jumps (ok a) = refl
    jumps (err e) = refl

    as_after :
        (outs : Trace) (r : Result (Trace × Sessions))
        → (r >>= λ a. ok (outs ++ a.0, a.1)) ≡ after outs r
    as_after outs (ok a) = refl
    as_after outs (err e) = refl

    goes_on :
        (r : Result (Trace × Sessions))
        → ((s : Sessions) → listen rounds s ≡ flow (handled rounds) s)
        → (with_over false r >>= rest) ≡ continue (flow (handled rounds)) r
    goes_on (ok a) ih = as_after a.0 (listen rounds a.1) ∙ ap (after a.0) (ih a.1)
    goes_on (err e) ih = refl
