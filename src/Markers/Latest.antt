-- ===== src/Markers/Latest.antt =====
-- The latest issue is on top of the priority queue, so that it holds up all the others.
use abacuscm.Prelude.{
  ℕ, zero, suc, ◌+◌, ◌≤◌, ◌≡◌, subst, inl, inr, true, false, List, [], ◌∷◌, ◌++◌, arith, ◌==◌,
  Bool-cases, Option-cases, length, All, list-cases, nat_order, bytes_order, find, erase,
}
use abacuscm.Markers.{
  Db, Issue, Markers, issue_lt, push_issue, retrieve, issue, real_enqueue_submission,
  real_enqueue_marker, enqueue_marker, preempt_marker, enqueue_submission, notify_marked, time_out,
  expired, check_loop, check_for_timeouts, contains, perform, enqueue_marker_call,
  preempt_marker_call, enqueue_submission_call, notify_marked_call, check_for_timeouts_call,
  Reachable, start, call, empty,
}
use abacuscm.Markers.Timeouts.{top_expired, check_loop-top}

abbrev IsAfter : ℕ → Issue → Type 0
IsAfter t e = e.time ≤ t

-- Each issue is at least as late as those behind it.
pub Descends : List Issue → Type 0
Descends [] = Unit
Descends (e ∷ es) = All (IsAfter e.time) es × Descends es

IsAfter-All : (t u : ℕ) (es : List Issue) → t ≤ u → All (IsAfter t) es → All (IsAfter u) es
IsAfter-All t u [] le h = tt
IsAfter-All t u (e ∷ es) le h = (omega (arith, le, h.0), IsAfter-All t u es le h.1)

push_issue-All :
    (t : ℕ) (e : Issue) (es : List Issue)
    → e.time ≤ t
    → All (IsAfter t) es
    → All (IsAfter t) (push_issue e es)
unfolding push_issue
push_issue-All t e [] le h = (le, tt)
push_issue-All t e (x ∷ xs) le h = elim (Bool-cases (issue_lt e x)) [
  | inl q ↦ rw (q, push_issue) (h.0, push_issue-All t e xs le h.1)
  | inr q ↦ rw (q, push_issue) (le, h)
]

issue_lt-time : (a b : Issue) → issue_lt a b ≡ true → a.time ≤ b.time
unfolding issue_lt
issue_lt-time a b h = ground arith

issue_ge-time : (a b : Issue) → issue_lt a b ≡ false → b.time ≤ a.time
unfolding issue_lt
issue_ge-time a b h = ground arith

push_issue-Descends : (e : Issue) (es : List Issue) → Descends es → Descends (push_issue e es)
unfolding push_issue Descends
push_issue-Descends e [] d = (tt, tt)
push_issue-Descends e (x ∷ xs) d = elim (Bool-cases (issue_lt e x)) [
  | inl q ↦
      let le : e.time ≤ x.time = issue_lt-time e x q in
      rw (q, push_issue) (push_issue-All x.time e xs le d.0, push_issue-Descends e xs d.1)
  | inr q ↦
      let le : x.time ≤ e.time = issue_ge-time e x q in
      rw (q, push_issue) ((le, IsAfter-All x.time e.time xs le d.0), d)
]

abbrev InOrder : Markers → Type 0
InOrder s = Descends s.issue_times

issue-InOrder :
    (db : Db) (now : ℕ) (s : Markers) (cc sd : ℕ) → InOrder s → InOrder (issue db now s cc sd)
unfolding issue
issue-InOrder db now s cc sd d = elim (Option-cases (retrieve db sd)) [
  | inl e ↦ rw (e, issue) d
  | inr (x, e) ↦ rw (e, issue) (push_issue-Descends _ s.issue_times d)
]

real_enqueue_submission-InOrder :
    (db : Db) (now : ℕ) (s : Markers) (sd : ℕ)
    → InOrder s
    → InOrder (real_enqueue_submission db now s sd)
unfolding real_enqueue_submission
real_enqueue_submission-InOrder db now s sd d = elim (list-cases s.markers) [
  | inl e ↦ rw e d
  | inr (client, rest, e) ↦ rw e (issue-InOrder db now (record s { markers = rest }) client sd d)
]

real_enqueue_marker-InOrder :
    (db : Db) (now : ℕ) (s : Markers) (client : ℕ)
    → InOrder s
    → InOrder (real_enqueue_marker db now s client)
unfolding real_enqueue_marker
real_enqueue_marker-InOrder db now s client d = elim (list-cases s.problems) [
  | inl e ↦ rw e d
  | inr (sd, rest, e) ↦ rw e (issue-InOrder db now (record s { problems = rest }) client sd d)
]

enqueue_marker-InOrder :
    (db : Db) (now : ℕ) (s : Markers) (client : ℕ)
    → InOrder s
    → InOrder (enqueue_marker db now s client)
unfolding enqueue_marker
enqueue_marker-InOrder db now s client d = elim (Option-cases (find client s.issued)) [
  | inr (sd, e) ↦ rw (e, enqueue_marker) d
  | inl e ↦ elim (Bool-cases (contains client s.markers)) [
    | inl h ↦ rw (e, enqueue_marker, h) d
    | inr h ↦ rw (e, enqueue_marker, h) (real_enqueue_marker-InOrder db now s client d)
  ]
]

preempt_marker-InOrder :
    (db : Db) (now : ℕ) (s : Markers) (client : ℕ)
    → InOrder s
    → InOrder (preempt_marker db now s client)
unfolding preempt_marker
preempt_marker-InOrder db now s client d = elim (Bool-cases (contains client s.markers)) [
  | inl h ↦ rw (h, preempt_marker) d
  | inr h ↦ elim (Option-cases (find client s.issued)) [
    | inl e ↦ rw (h, preempt_marker, e) d
    | inr (sd, e) ↦
        rw (h, preempt_marker, e)
          (real_enqueue_submission-InOrder db now (record s { issued = erase client s.issued }) sd
            d)
  ]
]

notify_marked-InOrder :
    (db : Db) (now : ℕ) (s : Markers) (client sd : ℕ)
    → InOrder s
    → InOrder (notify_marked db now s client sd)
unfolding notify_marked
notify_marked-InOrder db now s client sd d = elim (Option-cases (find client s.issued)) [
  | inl e ↦ rw (e, notify_marked) d
  | inr (held, e) ↦
      let next : (t : Markers)
          → InOrder t
          → InOrder
              (real_enqueue_marker db now (record t { issued = erase client t.issued }) client) =
        λ t o.
          real_enqueue_marker-InOrder db now (record t { issued = erase client t.issued }) client
            o in
      elim (Bool-cases (sd == held)) [
        | inl q ↦ rw (e, notify_marked, q) (next s d)
        | inr q ↦
            rw (e, notify_marked, q)
              (next (real_enqueue_submission db now s held)
                (real_enqueue_submission-InOrder db now s held d))
      ]
]

time_out-InOrder :
    (db : Db) (now : ℕ) (s : Markers) (i : Issue) → InOrder s → InOrder (time_out db now s i)
unfolding time_out
time_out-InOrder db now s i d = elim (Option-cases (find i.client s.issued)) [
  | inl e ↦ rw (e, time_out) d
  | inr (sd, e) ↦ elim (Bool-cases (sd == i.submission)) [
    | inr q ↦ rw (e, time_out, q) d
    | inl q ↦
        rw (e, time_out, q)
          (real_enqueue_submission-InOrder db now (record s { issued = erase i.client s.issued })
            i.submission d)
  ]
]

check_loop-InOrder :
    (fuel : ℕ) (db : Db) (now : ℕ) (s : Markers) → InOrder s → InOrder (check_loop fuel db now s)
unfolding check_loop Descends
check_loop-InOrder zero db now s d = d
check_loop-InOrder (suc fuel) db now s d = elim (list-cases s.issue_times) [
  | inl e ↦ rw (e, check_loop) d
  | inr (i, rest, e) ↦ elim (Bool-cases (expired now s.timeout i)) [
    | inr q ↦ rw (e, check_loop, q) d
    | inl q ↦
        let o : Descends (i ∷ rest) = subst Descends e d in
        rw (e, check_loop, q)
          (check_loop-InOrder fuel db now (time_out db now (record s { issue_times = rest }) i)
            (time_out-InOrder db now (record s { issue_times = rest }) i o.1))
  ]
]

Reachable-InOrder : (timeout : ℕ) (s : Markers) → Reachable timeout s → InOrder s
unfolding perform enqueue_submission check_for_timeouts empty Descends
Reachable-InOrder timeout _ start = tt
Reachable-InOrder timeout _ (call {s} db now (enqueue_marker_call client) r) =
    enqueue_marker-InOrder db now s client (Reachable-InOrder timeout s r)
Reachable-InOrder timeout _ (call {s} db now (preempt_marker_call client) r) =
    preempt_marker-InOrder db now s client (Reachable-InOrder timeout s r)
Reachable-InOrder timeout _ (call {s} db now (enqueue_submission_call sd) r) =
    real_enqueue_submission-InOrder db now s sd (Reachable-InOrder timeout s r)
Reachable-InOrder timeout _ (call {s} db now (notify_marked_call client sd) r) =
    notify_marked-InOrder db now s client sd (Reachable-InOrder timeout s r)
Reachable-InOrder timeout _ (call {s} db now check_for_timeouts_call r) =
    check_loop-InOrder (suc (length s.issue_times)) db now s (Reachable-InOrder timeout s r)

-- The front of a queue that has an issue somewhere is no earlier, so it has not expired if that has
-- not.
top_expired-append :
    (now timeout : ℕ) (before after : List Issue) (i : Issue)
    → Descends (before ++ i ∷ after)
    → now ≤ i.time + timeout
    → top_expired now timeout (before ++ i ∷ after) ≡ false
unfolding top_expired expired Descends
top_expired-append now timeout [] after i d le = ground arith
top_expired-append now timeout (e ∷ before) after i d le =
    let later : i.time ≤ e.time = middle before after i e.time d.0 in ground (arith, later)
  where
    middle :
        (before after : List Issue) (i : Issue) (t : ℕ)
        → All (IsAfter t) (before ++ i ∷ after)
        → i.time ≤ t
    middle [] after i t h = h.0
    middle (e ∷ before) after i t h = middle before after i t h.1

-- In every state that the calls of the server lead to, one issue that has not expired is enough for
-- `check_for_timeouts` to change nothing, wherever it is in the queue, whether or not its marker still
-- works on it, and however long ago the others were made.
pub check_for_timeouts_blocked :
    (timeout : ℕ) (db : Db) (now : ℕ) (s : Markers) (before after : List Issue) (i : Issue)
    → Reachable timeout s
    → s.issue_times ≡ before ++ i ∷ after
    → now ≤ i.time + s.timeout
    → check_for_timeouts db now s ≡ s
unfolding check_for_timeouts
check_for_timeouts_blocked timeout db now s before after i r e le =
    check_loop-top (suc (length s.issue_times)) db now s (
      rw e (
        top_expired-append now s.timeout before after i
          (subst Descends e (Reachable-InOrder timeout s r)) le))
