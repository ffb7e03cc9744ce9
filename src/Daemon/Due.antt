-- ===== src/Daemon/Due.antt =====
-- Timed actions are performed when they are due, in the order of their times, and none is lost.
use abacuscm.Prelude.{
  ℕ, ◌≤◌, ◌<◌, ◌≡◌, refl, sym, ap, ◌∙◌, subst, ◌≢◌, inl, inr, none, some, List, [], ◌∷◌, ◌++◌,
  arith, ltb, leb, Bool-cases, Option-cases, All, nat_order, bytes_order,
}
use abacuscm.Daemon.Timed.{
  TimedAction, Schedule, push_heap, perform_loop, perform_from, perform_due, schedule, Reachable,
  start, dequeues, performs,
}

-- What waits, the next one first.
unfoldable pub waiting : Schedule → List TimedAction
waiting s = elim s.next [ none ↦ s.heap | some a ↦ a ∷ s.heap ]

-- The times ascend.
abbrev pub Ascends : List TimedAction → Type 0
Ascends [] = Unit
Ascends (a ∷ rest) = All (λ e. a.time ≤ e.time) rest × Ascends rest

-- Nothing waits behind no next action, and what waits ascends.
pub record IsSchedule (s : Schedule) : Type 0 where
  pub next_first : s.next ≡ none → s.heap ≡ []
  pub ascends : Ascends (waiting s)

All-push_heap :
    (P : TimedAction → Type 0) (a : TimedAction) (heap : List TimedAction)
    → P a
    → All P heap
    → All P (push_heap a heap)
unfolding push_heap
All-push_heap P a [] p h = (p, tt)
All-push_heap P a (b ∷ heap) p h = ground (arith, All-push_heap P a heap p h.1)

All-later :
    (t u : ℕ) (heap : List TimedAction)
    → t ≤ u
    → All (λ e. u ≤ e.time) heap
    → All (λ e. t ≤ e.time) heap
All-later t u [] h k = tt
All-later t u (a ∷ heap) h k = (omega (arith, h, k.0), All-later t u heap h k.1)

push_heap-Ascends :
    (a : TimedAction) (heap : List TimedAction) → Ascends heap → Ascends (push_heap a heap)
unfolding push_heap
push_heap-Ascends a [] h = (tt, tt)
push_heap-Ascends a (b ∷ heap) h = elim (Bool-cases (ltb a.time b.time)) [
  | inl e ↦ rw (e, push_heap) ((ground arith, All-later a.time b.time heap (ground arith) h.0), h)
  | inr e ↦
      rw (e, push_heap)
        (
          All-push_heap (λ x. b.time ≤ x.time) a heap (ground arith) h.0,
          push_heap-Ascends a heap h.1,
        )
]

waiting-some : (s : Schedule) (n : TimedAction) → s.next ≡ some n → waiting s ≡ n ∷ s.heap
unfolding waiting
waiting-some s n e = rw (e, waiting) refl

some≢none : (n : TimedAction) → some n ≢ none
some≢none n h = cc

schedule-IsSchedule : (a : TimedAction) (s : Schedule) → IsSchedule s → IsSchedule (schedule a s)
unfolding schedule waiting
schedule-IsSchedule a s w = elim (Option-cases s.next) [
  | inl e ↦
      rw (e, schedule)
        (record {
          next_first = λ h. absurd (some≢none a h);
          ascends = subst (λ l. Ascends (a ∷ l)) (sym (w.next_first e)) (tt, tt);
        })
  | inr (n, e) ↦
      let (le, asc) = subst Ascends (waiting-some s n e) w.ascends in
      elim (Bool-cases (ltb a.time n.time)) [
        | inl q ↦
            rw (e, schedule, q)
              (record {
                next_first = λ h. absurd (some≢none a h);
                ascends = (
                  All-push_heap (λ x. a.time ≤ x.time) n s.heap (ground arith)
                      (All-later a.time n.time s.heap (ground arith) le),
                  push_heap-Ascends n s.heap asc,
                );
              })
        | inr q ↦
            rw (e, schedule, q)
              (record {
                next_first = λ h. absurd (some≢none n (sym e ∙ h));
                ascends =
                    subst Ascends (sym (waiting-some (record s { heap = push_heap a s.heap }) n e))
                      (
                        All-push_heap (λ x. n.time ≤ x.time) a s.heap (ground arith) le,
                        push_heap-Ascends a s.heap asc,
                      );
              })
      ]
]

-- What performing at a time leaves of a list that ascends.
pub record IsPerformed (now : ℕ) (before performed : List TimedAction) (s : Schedule) : Type 0 where
  pub conserved : before ≡ performed ++ waiting s
  pub due : All (λ e. e.time ≤ now) performed
  pub later : All (λ e. now < e.time) (waiting s)
  pub scheduled : IsSchedule s

perform_loop-IsPerformed :
    (now : ℕ) (a : TimedAction) (heap : List TimedAction)
    → Ascends (a ∷ heap)
    → IsPerformed now (a ∷ heap) (perform_loop now a heap).0 (perform_loop now a heap).1
unfolding perform_loop waiting
perform_loop-IsPerformed now a [] h = elim (Bool-cases (leb a.time now)) [
  | inl e ↦
      rw (e, perform_loop)
        (record {
          conserved = refl;
          due = (ground arith, tt);
          later = tt;
          scheduled = record { next_first = λ q. refl; ascends = tt };
        })
  | inr e ↦
      rw (e, perform_loop)
        (record {
          conserved = refl;
          due = tt;
          later = (ground arith, tt);
          scheduled = record { next_first = λ q. absurd (some≢none a q); ascends = h };
        })
]
perform_loop-IsPerformed now a (b ∷ heap) h = elim (Bool-cases (leb a.time now)) [
  | inl e ↦
      let r = perform_loop-IsPerformed now b heap h.1 in
      rw (e, perform_loop)
        (record {
          conserved = ap (◌∷◌ a) r.conserved;
          due = (ground arith, r.due);
          later = r.later;
          scheduled = r.scheduled;
        })
  | inr e ↦
      rw (e, perform_loop)
        (record {
          conserved = refl;
          due = tt;
          later = (ground arith, All-above now a.time (b ∷ heap) (ground arith) h.0);
          scheduled = record { next_first = λ q. absurd (some≢none a q); ascends = h };
        })
]
  where
    All-above :
        (t u : ℕ) (l : List TimedAction) → t < u → All (λ e. u ≤ e.time) l → All (λ e. t < e.time) l
    All-above t u [] p q = tt
    All-above t u (c ∷ l) p q = (omega (arith, p, q.0), All-above t u l p q.1)

waiting-none : (s : Schedule) → IsSchedule s → s.next ≡ none → waiting s ≡ []
unfolding waiting
waiting-none s w e = rw (e, waiting) (w.next_first e)

perform_due-IsPerformed :
    (now : ℕ) (s : Schedule)
    → IsSchedule s
    → IsPerformed now (waiting s) (perform_due now s).0 (perform_due now s).1
unfolding perform_due perform_from
perform_due-IsPerformed now s w = elim (Option-cases s.next) [
  | inl e ↦
      let q : perform_due now s ≡ ([], s) = ap (perform_from now s) e in
      subst (λ (r : List TimedAction × Schedule). IsPerformed now (waiting s) r.0 r.1) (sym q)
        (record {
          conserved = refl;
          due = tt;
          later = subst (All (λ x. now < x.time)) (sym (waiting-none s w e)) tt;
          scheduled = w;
        })
  | inr (a, e) ↦
      let q : perform_due now s ≡ perform_loop now a s.heap = ap (perform_from now s) e in
      let h : Ascends (a ∷ s.heap) = subst Ascends (waiting-some s a e) w.ascends in
      subst (λ (r : List TimedAction × Schedule). IsPerformed now (waiting s) r.0 r.1) (sym q)
        (subst (λ l. IsPerformed now l (perform_loop now a s.heap).0 (perform_loop now a s.heap).1)
          (sym (waiting-some s a e)) (perform_loop-IsPerformed now a s.heap h))
]

Reachable-IsSchedule : (s : Schedule) → Reachable s → IsSchedule s
unfolding waiting
Reachable-IsSchedule _ start = record { next_first = λ e. refl; ascends = tt }
Reachable-IsSchedule _ (dequeues {s} a r) = schedule-IsSchedule a s (Reachable-IsSchedule s r)
Reachable-IsSchedule _ (performs {s} now r) =
    (perform_due-IsPerformed now s (Reachable-IsSchedule s r)).scheduled

-- In every state that the loop reaches, what waits is in the order of its times, and the actions that
-- are performed at a time are those in front that are due, in this order: what was waiting is what is
-- performed followed by what still waits, and all of this is later.
pub Reachable-IsPerformed :
    (now : ℕ) (s : Schedule)
    → Reachable s
    → Ascends (waiting s) × IsPerformed now (waiting s) (perform_due now s).0 (perform_due now s).1
Reachable-IsPerformed now s r =
    let w : IsSchedule s = Reachable-IsSchedule s r in (w.ascends, perform_due-IsPerformed now s w)
