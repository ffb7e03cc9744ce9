-- ===== src/Markers/Pool.antt =====
-- A marker is idle once or has one submission, never both, whatever the database answers.
use abacuscm.Prelude.{
  ℕ, zero, suc, ◌≡◌, refl, subst, inl, inr, true, false, not, ◌&&◌, ◌||◌, none, List, [], ◌∷◌, ◌++◌,
  arith, ◌==◌, Bool-cases, Option-cases, length, list-cases, nat_order, bytes_order, find, erase,
  find-put, find-erase, IsSorted, put-IsSorted, erase-IsSorted,
}
use abacuscm.Markers.{
  expired, Db, Issue, Markers, contains, remove, retrieve, issue, real_enqueue_submission,
  real_enqueue_marker, enqueue_marker, preempt_marker, enqueue_submission, notify_marked, time_out,
  check_loop, check_for_timeouts, Call, enqueue_marker_call, preempt_marker_call,
  enqueue_submission_call, notify_marked_call, check_for_timeouts_call, perform, Reachable, start,
  call, empty,
}

-- No item stands twice in the list.
abbrev pub IsDistinct : List ℕ → Type 0
IsDistinct [] = Unit
IsDistinct (x ∷ xs) = (contains x xs ≡ false) × IsDistinct xs

pub record Inv (s : Markers) : Type 0 where
  pub distinct : IsDistinct s.markers
  pub separate : (cc : ℕ) → contains cc s.markers ≡ true → find cc s.issued ≡ none
  pub keys : IsSorted s.issued

pub contains-append :
    (a : ℕ) (xs : List ℕ) (y : ℕ) → contains a (xs ++ y ∷ []) ≡ (contains a xs || (y == a))
unfolding contains
contains-append a [] y = ground arith
contains-append a (x ∷ xs) y = ground (arith, contains-append a xs y)

IsDistinct-append :
    (xs : List ℕ) (y : ℕ) → IsDistinct xs → contains y xs ≡ false → IsDistinct (xs ++ y ∷ [])
unfolding contains
IsDistinct-append [] y d h = (refl, tt)
IsDistinct-append (x ∷ xs) y d h =
    (ground (arith, contains-append x xs y), IsDistinct-append xs y d.1 (ground arith))

contains-remove :
    (a b : ℕ) (xs : List ℕ)
    → IsDistinct xs
    → contains b (remove a xs) ≡ (contains b xs && not (a == b))
unfolding contains remove
contains-remove a b [] d = refl
contains-remove a b (x ∷ xs) d = ground (arith, contains-remove a b xs d.1)

remove-IsDistinct : (a : ℕ) (xs : List ℕ) → IsDistinct xs → IsDistinct (remove a xs)
unfolding remove
remove-IsDistinct a [] d = tt
remove-IsDistinct a (x ∷ xs) d =
    ground (arith, remove-IsDistinct a xs d.1, contains-remove a x xs d.1)

issue-Inv :
    (db : Db) (now : ℕ) (s : Markers) (cc sd : ℕ)
    → Inv s
    → contains cc s.markers ≡ false
    → find cc s.issued ≡ none
    → Inv (issue db now s cc sd)
unfolding issue
issue-Inv db now s cc sd v h k = elim (Option-cases (retrieve db sd)) [
  | inl e ↦
      rw (e, issue)
        (record {
          distinct = IsDistinct-append s.markers cc v.distinct h;
          separate = λ a m. ground (arith, contains-append a s.markers cc, v.separate a);
          keys = v.keys;
        })
  | inr (d, e) ↦
      rw (e, issue)
        (record {
          distinct = v.distinct;
          separate = λ a m. ground (arith, find-put cc a sd s.issued, v.separate a);
          keys = put-IsSorted cc sd s.issued v.keys;
        })
]

pub real_enqueue_submission-Inv :
    (db : Db) (now : ℕ) (s : Markers) (sd : ℕ) → Inv s → Inv (real_enqueue_submission db now s sd)
unfolding real_enqueue_submission contains
real_enqueue_submission-Inv db now s sd v = elim (list-cases s.markers) [
  | inl e ↦ rw e (record { distinct = tt; separate = λ a m. cc; keys = v.keys })
  | inr (client, rest, e) ↦
      let d : IsDistinct (client ∷ rest) = subst IsDistinct e v.distinct in
      let w : Inv (record s { markers = rest }) = record {
        distinct = d.1;
        separate = λ a m. v.separate a (rw e (ground arith));
        keys = v.keys;
      } in
      rw e (
        issue-Inv db now (record s { markers = rest }) client sd w d.0
          (v.separate client (rw e (ground arith))))
]

real_enqueue_marker-Inv :
    (db : Db) (now : ℕ) (s : Markers) (cc : ℕ)
    → Inv s
    → contains cc s.markers ≡ false
    → find cc s.issued ≡ none
    → Inv (real_enqueue_marker db now s cc)
unfolding real_enqueue_marker
real_enqueue_marker-Inv db now s cc v h k = elim (list-cases s.problems) [
  | inl e ↦ rw e (record {
    distinct = IsDistinct-append s.markers cc v.distinct h;
    separate = λ a m. ground (arith, contains-append a s.markers cc, v.separate a);
    keys = v.keys;
  })
  | inr (sd, rest, e) ↦ rw e (
      issue-Inv db now (record s { problems = rest }) cc sd
        (record { distinct = v.distinct; separate = v.separate; keys = v.keys }) h k)
]

enqueue_marker-Inv :
    (db : Db) (now : ℕ) (s : Markers) (cc : ℕ) → Inv s → Inv (enqueue_marker db now s cc)
unfolding enqueue_marker
enqueue_marker-Inv db now s cc v = elim (Option-cases (find cc s.issued)) [
  | inr (sd, e) ↦ rw (e, enqueue_marker) v
  | inl e ↦ elim (Bool-cases (contains cc s.markers)) [
    | inl h ↦ rw (e, enqueue_marker, h) v
    | inr h ↦ rw (e, enqueue_marker, h) (real_enqueue_marker-Inv db now s cc v h e)
  ]
]

-- Taking an assignment away leaves the rest well formed.
pub erase_issued-Inv :
    (s : Markers) (cc : ℕ) → Inv s → Inv (record s { issued = erase cc s.issued })
erase_issued-Inv s cc v = record {
  distinct = v.distinct;
  separate = λ a m. ground (arith, find-erase cc a s.issued, v.separate a m);
  keys = erase-IsSorted cc s.issued v.keys;
}

preempt_marker-Inv :
    (db : Db) (now : ℕ) (s : Markers) (cc : ℕ) → Inv s → Inv (preempt_marker db now s cc)
unfolding preempt_marker
preempt_marker-Inv db now s cc v = elim (Bool-cases (contains cc s.markers)) [
  | inl h ↦ rw h (record {
    distinct = remove-IsDistinct cc s.markers v.distinct;
    separate = λ a m. ground (arith, contains-remove cc a s.markers v.distinct, v.separate a);
    keys = v.keys;
  })
  | inr h ↦ elim (Option-cases (find cc s.issued)) [
    | inl e ↦ rw (h, e) v
    | inr (sd, e) ↦ rw (h, e) (real_enqueue_submission-Inv db now _ sd (erase_issued-Inv s cc v))
  ]
]

pub time_out-Inv : (db : Db) (now : ℕ) (s : Markers) (e : Issue) → Inv s → Inv (time_out db now s e)
unfolding time_out
time_out-Inv db now s e v = elim (Option-cases (find e.client s.issued)) [
  | inl h ↦ rw (h, time_out) v
  | inr (sd, h) ↦ elim (Bool-cases (sd == e.submission)) [
    | inr k ↦ rw (h, time_out, k) v
    | inl k ↦
        rw (h, time_out, k)
          (real_enqueue_submission-Inv db now _ e.submission (erase_issued-Inv s e.client v))
  ]
]

check_loop-Inv :
    (fuel : ℕ) (db : Db) (now : ℕ) (s : Markers) → Inv s → Inv (check_loop fuel db now s)
unfolding check_loop
check_loop-Inv zero db now s v = v
check_loop-Inv (suc fuel) db now s v = elim (list-cases s.issue_times) [
  | inl e ↦ rw e (record { distinct = v.distinct; separate = v.separate; keys = v.keys })
  | inr (i, rest, e) ↦ elim (Bool-cases (expired now s.timeout i)) [
    | inr h ↦
        rw (e, check_loop, h)
          (record { distinct = v.distinct; separate = v.separate; keys = v.keys })
    | inl h ↦
        rw (e, check_loop, h)
          (check_loop-Inv fuel db now _ (
            time_out-Inv db now _ i
              (record { distinct = v.distinct; separate = v.separate; keys = v.keys })))
  ]
]

-- A submission that comes in makes no marker idle.
pub real_enqueue_submission-contains :
    (db : Db) (now : ℕ) (s : Markers) (sd a : ℕ)
    → contains a s.markers ≡ false
    → contains a (real_enqueue_submission db now s sd).markers ≡ false
unfolding real_enqueue_submission issue contains
real_enqueue_submission-contains db now s sd a h = elim (list-cases s.markers) [
  | inl e ↦ rw e refl
  | inr (client, rest, e) ↦
      let g : contains a (client ∷ rest) ≡ false = subst (λ l. contains a l ≡ false) e h in
      rw e (ground (arith, contains-append a rest client))
]

notify_marked-Inv :
    (db : Db) (now : ℕ) (s : Markers) (cc sd : ℕ) → Inv s → Inv (notify_marked db now s cc sd)
unfolding notify_marked
notify_marked-Inv db now s cc sd v = elim (Option-cases (find cc s.issued)) [
  | inl e ↦ rw (e, notify_marked) v
  | inr (held, e) ↦
      let free : contains cc s.markers ≡ false = ground (arith, v.separate cc) in
      elim (Bool-cases (sd == held)) [
        | inl h ↦
            rw (e, notify_marked, h)
              (real_enqueue_marker-Inv db now _ cc (erase_issued-Inv s cc v) free
                (ground (arith, find-erase cc cc s.issued)))
        | inr h ↦
            rw (e, notify_marked, h)
              (real_enqueue_marker-Inv db now _ cc
                (erase_issued-Inv _ cc (real_enqueue_submission-Inv db now s held v))
                (ground (arith, real_enqueue_submission-contains db now s held cc))
                (ground (arith, find-erase cc cc (real_enqueue_submission db now s held).issued)))
      ]
]

perform-Inv : (db : Db) (now : ℕ) (c : Call) (s : Markers) → Inv s → Inv (perform db now c s)
unfolding perform enqueue_submission check_for_timeouts
perform-Inv db now (enqueue_marker_call cc) s v = enqueue_marker-Inv db now s cc v
perform-Inv db now (preempt_marker_call cc) s v = preempt_marker-Inv db now s cc v
perform-Inv db now (enqueue_submission_call sd) s v = real_enqueue_submission-Inv db now s sd v
perform-Inv db now (notify_marked_call cc sd) s v = notify_marked-Inv db now s cc sd v
perform-Inv db now check_for_timeouts_call s v =
    check_loop-Inv (suc (length s.issue_times)) db now s v

-- In every state that calls lead to, a marker waits at most once in `_markers`, and one that waits
-- there has no submission issued to it.
pub Reachable-Inv : (timeout : ℕ) (s : Markers) → Reachable timeout s → Inv s
unfolding empty find
Reachable-Inv timeout _ start = record { distinct = tt; separate = λ a m. refl; keys = tt }
Reachable-Inv timeout _ (call db now c r) = perform-Inv db now c _ (Reachable-Inv timeout _ r)
