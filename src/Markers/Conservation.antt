-- ===== src/Markers/Conservation.antt =====
-- No submission is lost: each that comes in stays in `_problems` or is issued to a marker until its
-- own marker reports it, whatever the database answers.
use abacuscm.Prelude.{
  ℕ, zero, suc, ◌+◌, ◌≡◌, refl, ap, ◌∙◌, inl, inr, none, some, arith, ◌==◌, if◌then◌else◌,
  Bool-cases, Option-cases, length, list-cases, nat_order, bytes_order, find, erase, find-put,
  find-erase,
}
use abacuscm.Markers.{
  Db, Issue, Markers, contains, retrieve, issue, real_enqueue_submission, enqueue_marker,
  preempt_marker, enqueue_submission, notify_marked, time_out, expired, check_loop,
  check_for_timeouts, Call, enqueue_marker_call, preempt_marker_call, enqueue_submission_call,
  notify_marked_call, check_for_timeouts_call, perform, Reachable,
}
use abacuscm.Markers.Pool.{
  Inv, Reachable-Inv, real_enqueue_submission-Inv, time_out-Inv, erase_issued-Inv,
}
use abacuscm.Markers.Counts.{
  one, held, count_issued-erase, real_enqueue_submission-held, real_enqueue_marker-held,
}

-- Taking one assignment away takes exactly that submission out of the pool.
erase_issued-held :
    (s : Markers) (cc sd a : ℕ)
    → Inv s
    → find cc s.issued ≡ some sd
    → held a (record s { issued = erase cc s.issued }) + one sd a ≡ held a s
unfolding held
erase_issued-held s cc sd a v h = omega (arith, count_issued-erase a cc sd s.issued v.keys h)

enqueue_marker-held :
    (db : Db) (now : ℕ) (s : Markers) (cc a : ℕ) → held a (enqueue_marker db now s cc) ≡ held a s
unfolding enqueue_marker
enqueue_marker-held db now s cc a = ground (arith, real_enqueue_marker-held db now s cc a)

preempt_marker-held :
    (db : Db) (now : ℕ) (s : Markers) (cc a : ℕ)
    → Inv s
    → held a (preempt_marker db now s cc) ≡ held a s
unfolding preempt_marker held
preempt_marker-held db now s cc a v = elim (Bool-cases (contains cc s.markers)) [
  | inl h ↦ rw (h, preempt_marker) refl
  | inr h ↦ elim (Option-cases (find cc s.issued)) [
    | inl e ↦ rw (h, preempt_marker, e) refl
    | inr (sd, e) ↦
        rw (h, preempt_marker, e)
          (omega (
            arith,
            erase_issued-held s cc sd a v e,
            real_enqueue_submission-held db now (record s { issued = erase cc s.issued }) sd a
                (erase_issued-Inv s cc v),
          ))
  ]
]

time_out-held :
    (db : Db) (now : ℕ) (s : Markers) (e : Issue) (a : ℕ)
    → Inv s
    → held a (time_out db now s e) ≡ held a s
unfolding time_out held
time_out-held db now s e a v = elim (Option-cases (find e.client s.issued)) [
  | inl h ↦ rw (h, time_out) refl
  | inr (sd, h) ↦ elim (Bool-cases (sd == e.submission)) [
    | inr k ↦ rw (h, time_out, k) refl
    | inl k ↦
        let q : sd ≡ e.submission = ground arith in
        let h' : find e.client s.issued ≡ some e.submission = h ∙ ap some q in
        rw (h, time_out, k)
          (omega (
            arith,
            erase_issued-held s e.client e.submission a v h',
            real_enqueue_submission-held db now (record s { issued = erase e.client s.issued })
                e.submission a (erase_issued-Inv s e.client v),
          ))
  ]
]

check_loop-held :
    (fuel : ℕ) (db : Db) (now : ℕ) (s : Markers) (a : ℕ)
    → Inv s
    → held a (check_loop fuel db now s) ≡ held a s
unfolding check_loop held
check_loop-held zero db now s a v = refl
check_loop-held (suc fuel) db now s a v = elim (list-cases s.issue_times) [
  | inl e ↦ rw e refl
  | inr (i, rest, e) ↦ elim (Bool-cases (expired now s.timeout i)) [
    | inr h ↦ rw (e, check_loop, h) refl
    | inl h ↦
        let w : Inv (record s { issue_times = rest }) = record {
          distinct = v.distinct;
          separate = v.separate;
          keys = v.keys;
        } in
        rw (e, check_loop, h)
          (check_loop-held fuel db now _ a (time_out-Inv db now _ i w)
            ∙ time_out-held db now (record s { issue_times = rest }) i a w)
  ]
]

issue-find :
    (db : Db) (now : ℕ) (s : Markers) (client sd cc held_by : ℕ)
    → find client s.issued ≡ none
    → find cc s.issued ≡ some held_by
    → find cc (issue db now s client sd).issued ≡ some held_by
unfolding issue
issue-find db now s client sd cc held_by free h = elim (Option-cases (retrieve db sd)) [
  | inl d ↦ rw (d, issue) h
  | inr (stored, d) ↦ rw (d, issue) (ground (arith, find-put client cc sd s.issued))
]

-- A busy marker keeps its submission when another one comes in.
real_enqueue_submission-find :
    (db : Db) (now : ℕ) (s : Markers) (sd cc held_by : ℕ)
    → Inv s
    → find cc s.issued ≡ some held_by
    → find cc (real_enqueue_submission db now s sd).issued ≡ some held_by
unfolding real_enqueue_submission contains
real_enqueue_submission-find db now s sd cc held_by v h = elim (list-cases s.markers) [
  | inl e ↦ rw e h
  | inr (client, rest, e) ↦
      let free : find client s.issued ≡ none = v.separate client (rw e (ground arith)) in
      rw e (issue-find db now (record s { markers = rest }) client sd cc held_by free h)
]

find_erased : (s : Markers) (cc : ℕ) → find cc (erase cc s.issued) ≡ none
find_erased s cc = ground (arith, find-erase cc cc s.issued)

-- What a result from a marker takes out of the pool: the submission that it was issued, if that is
-- the one it reports.
unfoldable pub marked : Markers → ℕ → ℕ → ℕ → ℕ
marked s cc sd a = elim (find cc s.issued) [
  | none ↦ 0
  | some held_by ↦ if sd == held_by then one sd a else 0
]

notify_marked-held :
    (db : Db) (now : ℕ) (s : Markers) (cc sd a : ℕ)
    → Inv s
    → held a (notify_marked db now s cc sd) + marked s cc sd a ≡ held a s
unfolding notify_marked marked
notify_marked-held db now s cc sd a v = elim (Option-cases (find cc s.issued)) [
  | inl e ↦ rw (e, notify_marked, marked) (omega arith)
  | inr (was, e) ↦ elim (Bool-cases (sd == was)) [
    | inl h ↦
        let q : sd ≡ was = ground arith in
        rw (e, notify_marked, marked, h)
          (omega (
            arith,
            ap (λ x. one x a) q,
            erase_issued-held s cc was a v e,
            real_enqueue_marker-held db now (record s { issued = erase cc s.issued }) cc a
                (find_erased s cc),
          ))
    | inr h ↦
        let s' : Markers = real_enqueue_submission db now s was in
        let w : Inv s' = real_enqueue_submission-Inv db now s was v in
        let k : find cc s'.issued ≡ some was =
          real_enqueue_submission-find db now s was cc was v e in
        rw (e, notify_marked, marked, h)
          (omega (
            arith,
            erase_issued-held s' cc was a w k,
            real_enqueue_submission-held db now s was a v,
            real_enqueue_marker-held db now (record s' { issued = erase cc s'.issued }) cc a
                (find_erased s' cc),
          ))
  ]
]

-- What one call brings into the pool, and what it takes out of it.
unfoldable pub arriving : Call → ℕ → ℕ
arriving (enqueue_marker_call cc) a = 0
arriving (preempt_marker_call cc) a = 0
arriving (enqueue_submission_call sd) a = one sd a
arriving (notify_marked_call cc sd) a = 0
arriving check_for_timeouts_call a = 0

unfoldable pub leaving : Markers → Call → ℕ → ℕ
leaving s (enqueue_marker_call cc) a = 0
leaving s (preempt_marker_call cc) a = 0
leaving s (enqueue_submission_call sd) a = 0
leaving s (notify_marked_call cc sd) a = marked s cc sd a
leaving s check_for_timeouts_call a = 0

perform-held :
    (db : Db) (now : ℕ) (c : Call) (s : Markers) (a : ℕ)
    → Inv s
    → held a (perform db now c s) + leaving s c a ≡ held a s + arriving c a
unfolding perform enqueue_submission check_for_timeouts arriving leaving
perform-held db now (enqueue_marker_call cc) s a v =
    omega (arith, enqueue_marker-held db now s cc a)
perform-held db now (preempt_marker_call cc) s a v =
    omega (arith, preempt_marker-held db now s cc a v)
perform-held db now (enqueue_submission_call sd) s a v =
    omega (arith, real_enqueue_submission-held db now s sd a v)
perform-held db now (notify_marked_call cc sd) s a v =
    omega (arith, notify_marked-held db now s cc sd a v)
perform-held db now check_for_timeouts_call s a v =
    omega (arith, check_loop-held (suc (length s.issue_times)) db now s a v)

-- In a state that calls lead to, each call keeps the number of times that a submission is in the
-- pool, waiting or issued to a marker, except that `enqueue_submission` adds the one it is given
-- and `notify_marked` takes out the one it reports, if that was issued to the marker that reports
-- it. This holds for every answer of the database and every time.
pub perform-held_reachable :
    (timeout : ℕ) (db : Db) (now : ℕ) (c : Call) (s : Markers) (a : ℕ)
    → Reachable timeout s
    → held a (perform db now c s) + leaving s c a ≡ held a s + arriving c a
perform-held_reachable timeout db now c s a r =
    perform-held db now c s a (Reachable-Inv timeout s r)
