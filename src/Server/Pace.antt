-- ===== src/Server/Pace.antt =====
-- `loop`: how fast ticks follow each other, and how far they fall behind.
use mosss.Common.{
  ℕ, zero, suc, ◌+◌, ◌*◌, ◌%◌, ◌^◌, ◌≤◌, ◌<◌, ◌≡◌, ap, ap₂, ◌∙◌, sym, subst, List, [], ◌∷◌, ◌++◌,
  arith, ok, Result, >>=-eq-ok, lt→ltb, le→ltb, append_assoc,
}
use native.Mathlib.Decide.{dec_lt}
use mosss.Server.{
  sleep, nanotime, tick_time_nanos, server_max_tick_catch_up, Loop, round, rounds, loop,
}
use mosss.Server.Sleep.{Ordered, sleep-Woken}

-- After the reading `before` the code has read on in `clock`, and `now` was the last one.
record Later (before : ℕ) (clock rest : List ℕ) (now : ℕ) : Type 0 where
  used : List ℕ
  split : clock ≡ used ++ (now ∷ rest)
  after : before ≤ now
  small : now < 2 ^ 63
  ordered : Ordered now rest

read_past :
    (before : ℕ) (early : List ℕ) (now : ℕ) (rest : List ℕ)
    → Ordered before (early ++ (now ∷ rest))
    → (before ≤ now) × (now < 2 ^ 63) × Ordered now rest
read_past before [] now rest o = o
read_past before (t ∷ early) now rest o =
    let (after, small, ordered) = read_past t early now rest o.2 in
    (omega (arith, o.0), small, ordered)

then-Later :
    {before : ℕ} {clock clock1 rest : List ℕ} {now later : ℕ}
    → Later before clock clock1 now
    → Later now clock1 rest later
    → Later before clock rest later
then-Later {rest = rest} {now} {later} a b = record {
  used = a.used ++ (now ∷ b.used);
  split =
      a.split
      ∙ ap (λ ts. a.used ++ (now ∷ ts)) b.split
      ∙ sym (append_assoc a.used (now ∷ b.used) (later ∷ rest));
  after = omega (arith, a.after, b.after);
  small = b.small;
  ordered = b.ordered;
}

sleep-Later :
    (until before : ℕ) (clock slept rest : List ℕ)
    → Ordered before clock
    → sleep until clock ≡ ok (slept, rest)
    → (now : ℕ) × Later before clock rest now × (until ≤ now)
sleep-Later until before clock slept rest o h =
    let w = sleep-Woken until clock slept rest h in
    let (after, small, ordered) = read_past before w.early w.now rest (rw w.split at o) in
    (
      w.now,
      record { used = w.early; split = w.split; after = after; small = small; ordered = ordered },
      w.late,
    )

parts :
    {A : Type 0} {a b : A} {xs ys : List ℕ}
    → ◌≡◌ {A = Result (A × List ℕ)} (ok (a, xs)) (ok (b, ys))
    → (a ≡ b) × (xs ≡ ys)
parts h = (cc, cc)

nanotime-Later :
    (before : ℕ) (clock rest : List ℕ) (now : ℕ)
    → Ordered before clock
    → nanotime clock ≡ ok (now, rest)
    → Later before clock rest now
nanotime-Later before [] rest now o h = absurd cc
nanotime-Later before (t ∷ clock) rest now o h =
    let (same, over) = parts h in
    record {
      used = [];
      split = ap₂ (λ a ts. a ∷ ts) same over;
      after = omega (arith, o.0, same);
      small = omega (arith, o.1, same);
      ordered = rw (← same, ← over) o.2;
    }

-- When the last tick began, or should have begun.
abbrev pub due : Loop → ℕ
due l = l.base_time + tick_time_nanos * l.ticks

-- What a round does, when the last one read the clock at `before`.
record Paced (l : Loop) (before : ℕ) (clock : List ℕ) (l1 : Loop) (rest : List ℕ) : Type 0 where
  now : ℕ
  later : Later before clock rest now
  apart : due l + tick_time_nanos ≤ due l1
  begun : due l1 ≤ now
  lag : now ≤ due l1 + tick_time_nanos * server_max_tick_catch_up

Paced-as :
    {l l2 l1 : Loop} {before : ℕ} {clock rest2 rest : List ℕ}
    → l2 ≡ l1
    → rest2 ≡ rest
    → Paced l before clock l2 rest2
    → Paced l before clock l1 rest
Paced-as {l} {l1 = l1} {before} {clock} {rest2} same over p =
    subst (Paced l before clock l1) over (subst (λ k. Paced l before clock k rest2) same p)

round-Paced :
    (l : Loop) (before : ℕ) (clock : List ℕ) (l1 : Loop) (rest : List ℕ)
    → due l ≤ before
    → before < 2 ^ 63
    → Ordered before clock
    → round l clock ≡ ok (l1, rest)
    → Paced l before clock l1 rest
unfolding round
round-Paced l before clock l1 rest begun small o h =
    let next = due l + tick_time_nanos in
    let limit = next + tick_time_nanos * server_max_tick_catch_up in
    let ticks : (l.ticks + 1) % 2 ^ 64 ≡ l.ticks + 1 = omega arith in
    let start : (l.base_time + tick_time_nanos * (l.ticks + 1) % 2 ^ 64) % 2 ^ 64 ≡ next =
      omega arith in
    let far : limit % 2 ^ 64 ≡ limit = omega arith in
    let ((slept, clock1), e1, h1) = >>=-eq-ok (sleep next clock) _ (rw (ticks, start, far) at h) in
    let (woken, past, late) = sleep-Later next before clock slept clock1 o e1 in
    let ((now, clock2), e2, h2) = >>=-eq-ok (nanotime clock1) _ h1 in
    let seen = then-Later past (nanotime-Later woken clock1 clock2 now past.ordered e2) in
    elim (dec_lt limit now) [
      | yes behind ↦
          let ((base_time, clock3), e3, h3) =
            >>=-eq-ok (nanotime clock2) _ (rw (lt→ltb limit now behind) at h2) in
          let (same, over) = parts h3 in
          let again = nanotime-Later now clock2 clock3 base_time seen.ordered e3 in
          Paced-as {l = l} {l2 = record { ticks = 0; base_time = base_time }} same over (record {
            now = base_time;
            later = then-Later seen again;
            apart = omega (arith, behind, again.after);
            begun = omega arith;
            lag = omega arith;
          })
      | no on_time ↦
          let in_time : now ≤ limit = omega arith in
          let (same, over) = parts (rw (le→ltb limit now in_time) at h2) in
          Paced-as {l = l} {l2 = record { ticks = l.ticks + 1; base_time = l.base_time }} same over
            (record {
              now = now;
              later = seen;
              apart = omega arith;
              begun =
                  omega
                    (arith, late, (nanotime-Later woken clock1 clock2 now past.ordered e2).after);
              lag = omega (arith, in_time);
            })
    ]

-- `rounds` after `start`, with the clock last read at `now`.
pub record OnSchedule (n start : ℕ) (clock : List ℕ) (l : Loop) (rest : List ℕ) : Type 0 where
  pub used : List ℕ
  pub now : ℕ
  pub split : clock ≡ used ++ (now ∷ rest)
  pub passed : start + tick_time_nanos * n ≤ due l
  pub begun : due l ≤ now
  pub lag : now ≤ due l + tick_time_nanos * server_max_tick_catch_up

rounds-Paced :
    (n : ℕ) (l : Loop) (before : ℕ) (clock : List ℕ) (l1 : Loop) (rest : List ℕ)
    → due l ≤ before
    → before ≤ due l + tick_time_nanos * server_max_tick_catch_up
    → before < 2 ^ 63
    → Ordered before clock
    → rounds n l clock ≡ ok (l1, rest)
    → OnSchedule n (due l) (before ∷ clock) l1 rest
unfolding rounds
rounds-Paced zero l before clock l1 rest begun lag small o h =
    let (same, over) = parts h in
    subst (λ k. OnSchedule 0 (due l) (before ∷ clock) k rest) same
      (record {
        used = [];
        now = before;
        split = ap (λ ts. before ∷ ts) over;
        passed = omega arith;
        begun = begun;
        lag = lag;
      })
rounds-Paced (suc n) l before clock l1 rest begun lag small o h =
    let ((l2, clock2), e, h2) = >>=-eq-ok (round l clock) _ h in
    let p = round-Paced l before clock l2 clock2 begun small o e in
    let r = rounds-Paced n l2 p.now clock2 l1 rest p.begun p.lag p.later.small p.later.ordered h2 in
    record {
      used = before ∷ p.later.used ++ r.used;
      now = r.now;
      split =
          ap (λ ts. before ∷ ts)
            (p.later.split
              ∙ ap (λ ts. p.later.used ++ ts) r.split
              ∙ sym (append_assoc p.later.used r.used (r.now ∷ rest)));
      passed = omega (arith, p.apart, r.passed);
      begun = r.begun;
      lag = r.lag;
    }

-- With a clock that does not go back, after `n` ticks at least `n` times 50 ms have passed since the
-- first reading of the clock, also where the schedule was started anew in between; and the
-- clock is at most five ticks ahead of the schedule.
pub loop-OnSchedule :
    (n start : ℕ) (clock : List ℕ) (l : Loop) (rest : List ℕ)
    → start < 2 ^ 63
    → Ordered start clock
    → loop n (start ∷ clock) ≡ ok (l, rest)
    → OnSchedule n start (start ∷ clock) l rest
unfolding loop
loop-OnSchedule n start clock l rest small o h =
    let first : Loop = record { ticks = 0; base_time = start } in
    let at_start : due first ≡ start = omega arith in
    subst (λ t. OnSchedule n t (start ∷ clock) l rest) at_start
      (rounds-Paced n first start clock l rest (omega arith) (omega arith) small o h)
