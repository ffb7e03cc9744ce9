-- ===== src/Timer/EndTime.antt =====
-- When the contest ends for a group.
use abacuscm.Prelude.{
  ℕ, suc, ◌+◌, ◌-◌, ◌≤◌, ◌<◌, ◌≡◌, refl, sym, ap, ◌∙◌, ◌≢◌, ◌⊎◌, inl, inr, false, not, ◌||◌, List,
  [], ◌∷◌, arith, ltb, leb, ◌==◌, Bool-cases, nat_order, bytes_order,
}
use abacuscm.Timer.{
  Event, Timer, Clock, concerns, tick, clock_loop, total, stopped_clock, timer_status_stopped, real,
  contest_time, end_loop, contest_end_time,
}
use abacuscm.Timer.Order.{AllFrom, AllFrom-mono, IsOrdered}
use abacuscm.Timer.Elapsed.{IsAction, IsStatus, AllFrom-zero}

-- The end is not before the last start, and not before the events that are still to come if the
-- contest is stopped.
end_loop-le :
    (group b : ℕ) (es : List Event) (status r last : ℕ)
    → IsOrdered es
    → IsAction es
    → IsStatus status
    → AllFrom b es
    → (status ≡ 2) ⊎ (b ≤ last)
    → end_loop group es status r last ≢ 0
    → b ≤ end_loop group es status r last
unfolding end_loop
end_loop-le group b [] status r last o a q h s z = ground arith
end_loop-le group b (e ∷ es) status r last o a q h s z =
    let ih1 : end_loop group es status r last ≢ 0 → b ≤ end_loop group es status r last =
      end_loop-le group b es status r last o.1 a.1 q h.1 s in
    let ih2 : end_loop group es e.action r e.time ≢ 0 → b ≤ end_loop group es e.action r e.time =
      end_loop-le group b es e.action r e.time o.1 a.1 a.0 h.1 (inr h.0) in
    let ih3 : e.action ≡ 2
        → end_loop group es e.action (r - (e.time - last)) last ≢ 0
        → b ≤ end_loop group es e.action (r - (e.time - last)) last =
      λ two. end_loop-le group b es e.action (r - (e.time - last)) last o.1 a.1 a.0 h.1 (inl two) in
    ground (arith, ih1, ih2, ih3, a.0, q, s)

clock_loop-later :
    (group t : ℕ) (es : List Event) (c : Clock) → AllFrom (suc t) es → clock_loop group t es c ≡ c
unfolding clock_loop
clock_loop-later group t [] c h = refl
clock_loop-later group t (e ∷ es) c h =
    let q : leb e.time t ≡ false = ground (arith, h.0) in rw (q, clock_loop) refl

-- Whether or not the loop of `contestTime` reaches an event that does not concern the group.
clock_loop-skip :
    (group t : ℕ) (e : Event) (es : List Event) (c : Clock)
    → AllFrom e.time es
    → tick group e c ≡ c
    → clock_loop group t (e ∷ es) c ≡ clock_loop group t es c
unfolding clock_loop
clock_loop-skip group t e es c o q = elim (Bool-cases (leb e.time t)) [
  | inl h ↦ rw (h, clock_loop) (ap (clock_loop group t es) q)
  | inr h ↦
      rw (h, clock_loop)
        (sym (clock_loop-later group t es c (AllFrom-mono (suc t) e.time es (ground arith) o)))
]

clock_loop-taken :
    (group t : ℕ) (e : Event) (es : List Event) (c : Clock)
    → e.time ≤ t
    → clock_loop group t (e ∷ es) c ≡ clock_loop group t es (tick group e c)
unfolding clock_loop
clock_loop-taken group t e es c h = ground arith

total_end :
    (group t : ℕ) (c : Clock) (r : ℕ)
    → end_loop group [] c.status r c.last_start ≡ t
    → t ≢ 0
    → total t (clock_loop group t [] c) ≡ c.elapsed + r
unfolding end_loop total clock_loop
total_end group t c r e z = ground arith

-- An event behind the end is not reached.
clock_loop-behind :
    (group t : ℕ) (e : Event) (es : List Event) (c : Clock)
    → t < e.time
    → clock_loop group t (e ∷ es) c ≡ c
unfolding clock_loop
clock_loop-behind group t e es c h = ground arith

-- At the end that the loop finds, the whole time has gone by.
end_loop-total :
    (group t : ℕ) (es : List Event) (c : Clock) (r : ℕ)
    → IsOrdered es
    → IsAction es
    → IsStatus c.status
    → AllFrom c.last_start es
    → end_loop group es c.status r c.last_start ≡ t
    → t ≢ 0
    → total t (clock_loop group t es c) ≡ c.elapsed + r
unfolding end_loop total tick
end_loop-total group t [] c r o a q h e z = total_end group t c r e z
end_loop-total group t (e ∷ es) c r o a q h eq z =
    elim (Bool-cases (not (concerns group e) || (e.action == c.status))) [
      | inl s ↦
          let same_clock : tick group e c ≡ c = rw s refl in
          let eq' : end_loop group es c.status r c.last_start ≡ t = ground arith in
          ap (total t) (clock_loop-skip group t e es c o.0 same_clock)
          ∙ end_loop-total group t es c r o.1 a.1 q h.1 eq' z
      | inr s ↦ elim (Bool-cases (e.action == 1)) [
        | inl one ↦
            let eq' : end_loop group es e.action r e.time ≡ t = ground arith in
            let le : e.time ≤ t = ground (
              arith,
              end_loop-le group e.time es e.action r e.time o.1 a.1 a.0 o.0 (inr (omega arith)),
            ) in
            let c1 : tick group e c
                ≡ record { status = e.action; elapsed = c.elapsed; last_start = e.time } =
              rw (s, one) refl in
            ap (total t) (clock_loop-taken group t e es c le ∙ ap (clock_loop group t es) c1)
            ∙ end_loop-total group t es
                (record { status = e.action; elapsed = c.elapsed; last_start = e.time }) r o.1 a.1
                a.0 o.0 eq' z
        | inr one ↦
            let two : e.action ≡ 2 = ground (arith, a.0) in
            elim (Bool-cases (ltb r (e.time - c.last_start))) [
              | inl over ↦
                  let eq' : c.last_start + r ≡ t = ground arith in
                  ap (total t) (clock_loop-behind group t e es c (ground arith)) ∙ ground (arith, q)
              | inr over ↦
                  let spent : ℕ = e.time - c.last_start in
                  let eq' : end_loop group es e.action (r - spent) c.last_start ≡ t =
                    ground arith in
                  let le : e.time ≤ t = ground (
                    arith,
                    end_loop-le group e.time es e.action (r - spent) c.last_start o.1 a.1 a.0 o.0
                        (inl two),
                  ) in
                  let c2 : tick group e c ≡ record {
                    status = e.action;
                    elapsed = c.elapsed + spent;
                    last_start = c.last_start;
                  } =
                    rw (s, one) refl in
                  ap (total t) (clock_loop-taken group t e es c le ∙ ap (clock_loop group t es) c2)
                  ∙ end_loop-total group t es
                      (record {
                        status = e.action;
                        elapsed = c.elapsed + spent;
                        last_start = c.last_start;
                      })
                      (r - spent) o.1 a.1 a.0 h.1 eq' z
                  ∙ ground arith
            ]
      ]
    ]

-- When `contestEndTime` gives an end for the group, the whole duration has gone by at that time, when
-- the events are in the order of time and each starts or stops.
pub contest_time-contest_end_time :
    (s : Timer) (now group : ℕ)
    → IsOrdered s.evlist
    → IsAction s.evlist
    → contest_end_time s group ≢ 0
    → contest_time s now group (contest_end_time s group) ≡ s.duration
unfolding contest_end_time contest_time real
contest_time-contest_end_time s now group o a z =
    let e : total (end_loop group s.evlist timer_status_stopped s.duration 0) (
          clock_loop group (end_loop group s.evlist timer_status_stopped s.duration 0) s.evlist
            stopped_clock)
        ≡ 0 + s.duration =
      end_loop-total group _ s.evlist stopped_clock s.duration o a (inr refl)
        (AllFrom-zero s.evlist) refl z in
    ground arith
