-- ===== src/Server/Sleep.antt =====
-- `sleep`: when it returns, and what it waits for.
use mosss.Common.{
  ℕ, ◌+◌, ◌-◌, ◌*◌, ◌^◌, ◌≤◌, ◌<◌, ◌≡◌, refl, ap, ◌∙◌, List, [], ◌∷◌, ◌++◌, length, arith, ok,
  Result, >>=-eq-ok, All, leb, lt→ltb, le→ltb, Bool-cases, inl, inr, sym,
}
use native.Mathlib.Decide.{dec_lt}
use mosss.Server.{naps, sleep, sleep_threshold}

-- Readings of a clock that does not go back, after the reading `before`.
abbrev pub Ordered : ℕ → List ℕ → Type 0
Ordered before [] = Unit {0}
Ordered before (now ∷ clock) = (before ≤ now) × (now < 2 ^ 63) × Ordered now clock

-- Readings of a clock that goes on by a nanosecond, or more, from one to the next.
abbrev pub Advancing : List ℕ → Type 0
Advancing [] = Unit {0}
Advancing (now ∷ []) = Unit
Advancing (now ∷ later ∷ clock) = (now < later) × Advancing (later ∷ clock)

-- What `sleep_for` was given after the readings `early`.
abbrev pub all_naps : ℕ → List ℕ → List ℕ
all_naps until [] = []
all_naps until (now ∷ clock) = naps until now ++ all_naps until clock

sleep_on :
    (until now : ℕ) (clock slept rest : List ℕ)
    → now < until
    → sleep until clock ≡ ok (slept, rest)
    → sleep until (now ∷ clock) ≡ ok (naps until now ++ slept, rest)
unfolding sleep
sleep_on until now clock slept rest early h = rw (lt→ltb now until early, h) refl

sleep_over :
    (until now : ℕ) (clock : List ℕ) → until ≤ now → sleep until (now ∷ clock) ≡ ok ([], clock)
unfolding sleep
sleep_over until now clock late = rw (le→ltb now until late) refl

sleep_returns :
    (until now : ℕ) (clock : List ℕ)
    → Advancing (now ∷ clock)
    → until ≤ now + length clock
    → (slept : List ℕ) × (rest : List ℕ) × (sleep until (now ∷ clock) ≡ ok (slept, rest))
sleep_returns until now [] advancing enough = ([], [], sleep_over until now [] (omega arith))
sleep_returns until now (later ∷ clock) advancing enough =
    let (slept, rest, h) =
      sleep_returns until later clock advancing.1 (omega (arith, advancing.0)) in
    elim (dec_lt now until) [
      | yes early ↦
          (naps until now ++ slept, rest, sleep_on until now (later ∷ clock) slept rest early h)
      | no late ↦ ([], later ∷ clock, sleep_over until now (later ∷ clock) (omega arith))
    ]

ok_parts :
    {xs ys zs ws : List ℕ}
    → ◌≡◌ {A = Result (List ℕ × List ℕ)} (ok (xs, ys)) (ok (zs, ws))
    → (xs ≡ zs) × (ys ≡ ws)
ok_parts h = (cc, cc)

-- `sleep` returned at the reading `now`.
pub record Woken (until : ℕ) (clock slept rest : List ℕ) : Type 0 where
  pub early : List ℕ
  pub now : ℕ
  pub split : clock ≡ early ++ (now ∷ rest)
  pub before : All (λ t. t < until) early
  pub late : until ≤ now
  pub slept_all : slept ≡ all_naps until early

pub sleep-Woken :
    (until : ℕ) (clock slept rest : List ℕ)
    → sleep until clock ≡ ok (slept, rest)
    → Woken until clock slept rest
unfolding sleep
sleep-Woken until [] slept rest h = absurd cc
sleep-Woken until (now ∷ clock) slept rest h = elim (dec_lt now until) [
  | yes early ↦
      let ((slept1, rest1), again, h1) =
        >>=-eq-ok (sleep until clock) _ (rw (lt→ltb now until early) at h) in
      let w = sleep-Woken until clock slept1 rest1 again in
      record {
        early = now ∷ w.early;
        now = w.now;
        split = ap (λ ts. now ∷ ts) (w.split ∙ ap (λ ts. w.early ++ (w.now ∷ ts)) (ok_parts h1).1);
        before = (early, w.before);
        late = w.late;
        slept_all = sym (ok_parts h1).0 ∙ ap (λ ts. naps until now ++ ts) w.slept_all;
      }
  | no late ↦
      let at_once = ok_parts (sym (sleep_over until now clock (omega arith)) ∙ unfold sleep in h) in
      record {
        early = [];
        now = now;
        split = ap (λ ts. now ∷ ts) at_once.1;
        before = tt;
        late = omega arith;
        slept_all = sym at_once.0;
      }
]

-- A nap ends before the middle between the reading `now` and `until`, or on it.
pub naps_half :
    (until now : ℕ) → now < until → All (λ ms. now + 2 * (1_000_000 * ms) ≤ until) (naps until now)
unfolding naps
naps_half until now early = elim (Bool-cases (leb sleep_threshold (until - now))) [
  | inl long ↦ rw long (omega arith, tt)
  | inr short ↦ rw short tt
]

-- With a clock that goes on by a nanosecond, or more, from one reading to the next, `sleep`
-- returns after as many readings as nanoseconds are left, or earlier: at the first reading that is
-- not before `until`, and after each reading before it `sleep_for` was given what `naps` says.
pub sleep_lem :
    (until now : ℕ) (clock : List ℕ)
    → Advancing (now ∷ clock)
    → until ≤ now + length clock
    → (slept : List ℕ) × (rest : List ℕ) × (sleep until (now ∷ clock) ≡ ok (slept, rest))
      × Woken until (now ∷ clock) slept rest
sleep_lem until now clock advancing enough =
    let (slept, rest, h) = sleep_returns until now clock advancing enough in
    (slept, rest, h, sleep-Woken until (now ∷ clock) slept rest h)
