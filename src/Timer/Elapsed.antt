-- ===== src/Timer/Elapsed.antt =====
-- What `contestTime` counts.
use abacuscm.Prelude.{
  ℕ, zero, suc, ◌+◌, ◌≤◌, ◌≡◌, refl, ap, ◌∙◌, ◌≢◌, ◌⊎◌, inl, inr, true, List, [], ◌∷◌, arith, ltb,
  leb, ◌==◌, if◌then◌else◌, leb→le, Bool-cases, All, nat_order, bytes_order,
}
use abacuscm.Timer.{
  Event, Timer, Clock, concerns, tick, clock_loop, total, stopped_clock, timer_status_stopped, real,
  contest_time, status_loop,
}
use abacuscm.Timer.Order.{AllFrom, AllFrom-mono, IsOrdered}

-- Every event starts or stops.
abbrev pub IsAction : List Event → Type 0
IsAction = All (λ e. (e.action ≡ 1) ⊎ (e.action ≡ 2))

abbrev pub IsStatus : ℕ → Type 0
IsStatus n = (n ≡ 1) ⊎ (n ≡ 2)

tick-last :
    (group t : ℕ) (e : Event) (c : Clock)
    → e.time ≤ t
    → c.last_start ≤ t
    → (tick group e c).last_start ≤ t
unfolding tick
tick-last group t e c h k = ground arith

tick-status :
    (group : ℕ) (e : Event) (c : Clock)
    → (tick group e c).status ≡ (if concerns group e then e.action else c.status)
unfolding tick
tick-status group e c = ground arith

tick-IsStatus :
    (group : ℕ) (e : Event) (c : Clock)
    → IsStatus e.action
    → IsStatus c.status
    → IsStatus (tick group e c).status
unfolding tick
tick-IsStatus group e c h k = ground arith

-- An event at `t` adds nothing to the total at `t`.
tick-total :
    (group t : ℕ) (e : Event) (c : Clock)
    → e.time ≡ t
    → c.last_start ≤ t
    → IsStatus e.action
    → IsStatus c.status
    → total t (tick group e c) ≡ total t c
unfolding tick total
tick-total group t e c h k a b = ground arith

total-later :
    (group t : ℕ) (es : List Event) (c : Clock)
    → AllFrom t es
    → IsAction es
    → c.last_start ≤ t
    → IsStatus c.status
    → total t (clock_loop group t es c) ≡ total t c
unfolding clock_loop
total-later group t [] c h a k b = refl
total-later group t (e ∷ es) c h a k b = elim (Bool-cases (leb e.time t)) [
  | inr q ↦ rw (q, clock_loop) refl
  | inl q ↦
      let le : e.time ≤ t = leb→le e.time t q in
      rw (q, clock_loop)
        (total-later group t es (tick group e c) h.1 a.1 (tick-last group t e c le k)
            (tick-IsStatus group e c a.0 b)
          ∙ tick-total group t e c (omega (arith, h.0)) k a.0 b)
]

-- 1 while the contest runs for the group, 0 while it does not.
unfoldable pub running : ℕ → ℕ → ℕ
running status n = if status == 1 then suc n else n

total_step : (t : ℕ) (c : Clock) → c.last_start ≤ t → total (suc t) c ≡ running c.status (total t c)
unfolding total running
total_step t c k = ground arith

-- One more second adds to the total if the group's contest runs in it.
total-suc :
    (group t : ℕ) (es : List Event) (c : Clock)
    → IsOrdered es
    → IsAction es
    → c.last_start ≤ t
    → IsStatus c.status
    → total (suc t) (clock_loop group (suc t) es c)
      ≡ running (status_loop group t es c.status) (total t (clock_loop group t es c))
unfolding clock_loop status_loop running
total-suc group t [] c o a k b = total_step t c k
total-suc group t (e ∷ es) c o a k b = elim (Bool-cases (leb e.time t)) [
  | inl q ↦
      let le : e.time ≤ t = leb→le e.time t q in
      let q' : leb e.time (suc t) ≡ true = ground arith in
      rw (q, q', clock_loop, status_loop)
        (total-suc group t es (tick group e c) o.1 a.1 (tick-last group t e c le k)
            (tick-IsStatus group e c a.0 b)
          ∙ ap
              (λ n.
                running (status_loop group t es n)
                  (total t (clock_loop group t es (tick group e c))))
              (tick-status group e c))
  | inr q ↦
      let from : AllFrom (suc t) (e ∷ es) =
        (ground arith, AllFrom-mono (suc t) e.time es (ground arith) o.0) in
      total-later group (suc t) (e ∷ es) c from a (omega arith) b
      ∙ rw (q, clock_loop, status_loop) (total_step t c k)
]

pub AllFrom-zero : (es : List Event) → AllFrom 0 es
AllFrom-zero [] = tt
AllFrom-zero (e ∷ es) = (omega arith, AllFrom-zero es)

-- The seconds in front of `t` in which the contest runs for the group.
unfoldable pub seconds : ℕ → List Event → ℕ → ℕ
seconds group es zero = 0
seconds group es (suc t) =
    running (status_loop group t es timer_status_stopped) (seconds group es t)

total-seconds :
    (group t : ℕ) (es : List Event)
    → IsOrdered es
    → IsAction es
    → total t (clock_loop group t es stopped_clock) ≡ seconds group es t
unfolding seconds total
total-seconds group zero es o a =
    total-later group 0 es stopped_clock (AllFrom-zero es) a (omega arith) (inr refl)
total-seconds group (suc t) es o a =
    total-suc group t es stopped_clock o a (omega arith) (inr refl)
    ∙ ap (running (status_loop group t es timer_status_stopped)) (total-seconds group t es o a)

seconds_mono :
    (group : ℕ) (es : List Event) (t n : ℕ)
    → (seconds group es t ≤ seconds group es (t + n))
      × (seconds group es (t + n) ≤ seconds group es t + n)
unfolding seconds running
seconds_mono group es t zero =
    let z : seconds group es (t + 0) ≡ seconds group es t = ap (seconds group es) (omega arith) in
    (omega arith, omega arith)
seconds_mono group es t (suc n) =
    let i : t + suc n ≡ suc (t + n) = omega arith in
    let z : seconds group es (t + suc n) ≡ seconds group es (suc (t + n)) =
      ap (seconds group es) i in
    ground (arith, seconds_mono group es t n)

-- `contestTime` is the number of seconds before the given time in which the events have the contest
-- running for the group, cut off at the contest's duration, when the events are in the order of time
-- and each starts or stops.
pub contest_time-seconds :
    (s : Timer) (now group real_time : ℕ)
    → IsOrdered s.evlist
    → IsAction s.evlist
    → contest_time s now group real_time ≡ (
        if ltb s.duration (seconds group s.evlist (real now real_time))
        then s.duration
        else seconds group s.evlist (real now real_time))
unfolding contest_time
contest_time-seconds s now group real_time o a =
    ap (λ n. if ltb s.duration n then s.duration else n)
      (total-seconds group (real now real_time) s.evlist o a)

-- Under the same conditions `contestTime` never goes back, and never runs faster than the clock.
pub contest_time_mono :
    (s : Timer) (now group t n : ℕ)
    → IsOrdered s.evlist
    → IsAction s.evlist
    → t ≢ 0
    → (contest_time s now group t ≤ contest_time s now group (t + n))
      × (contest_time s now group (t + n) ≤ contest_time s now group t + n)
unfolding real
contest_time_mono s now group t n o a z = ground (
  arith,
  contest_time-seconds s now group t o a,
  contest_time-seconds s now group (t + n) o a,
  seconds_mono group s.evlist t n,
)
