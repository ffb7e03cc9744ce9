-- ===== src/Timer/Order.antt =====
-- `_evlist` is in the order of time.
use abacuscm.Prelude.{
  ℕ, ◌≤◌, inl, inr, Bool, true, false, Option, none, some, List, [], ◌∷◌, arith, ltb, ltb→lt,
  Bool-cases, All, nat_order, bytes_order,
}
use abacuscm.Timer.{Event, Timer, insert, schedule_start_stop}

abbrev pub AllFrom : ℕ → List Event → Type 0
AllFrom t = All (λ e. t ≤ e.time)

abbrev pub IsOrdered : List Event → Type 0
IsOrdered [] = Unit
IsOrdered (e ∷ es) = AllFrom e.time es × IsOrdered es

insert-AllFrom :
    (b : ℕ) (t : Event) (es : List Event) → b ≤ t.time → AllFrom b es → AllFrom b (insert t es)
unfolding insert
insert-AllFrom b t [] h k = (h, tt)
insert-AllFrom b t (e ∷ es) h k = ground (arith, insert-AllFrom b t es h k.1)

pub AllFrom-mono : (a b : ℕ) (es : List Event) → a ≤ b → AllFrom b es → AllFrom a es
AllFrom-mono a b [] h k = tt
AllFrom-mono a b (e ∷ es) h k = (omega (arith, k.0), AllFrom-mono a b es h k.1)

insert-IsOrdered : (t : Event) (es : List Event) → IsOrdered es → IsOrdered (insert t es)
unfolding insert
insert-IsOrdered t [] h = (tt, tt)
insert-IsOrdered t (e ∷ es) h = elim (Bool-cases (ltb e.time t.time)) [
  | inl q ↦
      rw (q, insert)
        (
          insert-AllFrom e.time t es (omega (arith, ltb→lt e.time t.time q)) h.0,
          insert-IsOrdered t es h.1,
        )
  | inr q ↦
      let le : t.time ≤ e.time = ground arith in
      rw (q, insert) ((le, AllFrom-mono t.time e.time es le h.0), h)
]

-- A call of `scheduleStartStop` keeps the events in the order of time, whether the database takes
-- the event or not.
pub schedule_start_stop-IsOrdered :
    (stored : Option Bool) (s : Timer) (group time action : ℕ)
    → IsOrdered s.evlist
    → IsOrdered (schedule_start_stop stored s group time action).1.evlist
unfolding schedule_start_stop
schedule_start_stop-IsOrdered none s group time action h = h
schedule_start_stop-IsOrdered (some false) s group time action h = h
schedule_start_stop-IsOrdered (some true) s group time action h = insert-IsOrdered _ s.evlist h
