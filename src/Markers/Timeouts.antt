-- ===== src/Markers/Timeouts.antt =====
-- `checkForTimeouts`: how far its loop goes.
use abacuscm.Prelude.{
  ℕ, zero, suc, ◌<◌, ◌≡◌, refl, sym, ap, ◌∙◌, subst, ◌⊎◌, inl, inr, Bool, false, List, [], ◌∷◌,
  arith, ◌==◌, Bool-cases, Option-cases, length, list-cases, nat_order, bytes_order, find, erase,
}
use abacuscm.Markers.{
  Db, Issue, Markers, issue_lt, push_issue, retrieve, issue, real_enqueue_submission, time_out,
  expired, check_loop, check_for_timeouts,
}

-- Whether there is an entry on top and it has expired.
unfoldable pub top_expired : ℕ → ℕ → List Issue → Bool
top_expired now timeout [] = false
top_expired now timeout (e ∷ es) = expired now timeout e

-- An entry made now leaves one on top that has not expired.
push_issue-top_expired :
    (now timeout cc sd : ℕ) (es : List Issue)
    → top_expired now timeout (push_issue (record { time = now; client = cc; submission = sd }) es)
      ≡ false
unfolding top_expired push_issue expired issue_lt
push_issue-top_expired now timeout cc sd [] = ground arith
push_issue-top_expired now timeout cc sd (e ∷ es) = ground arith

-- A submission that is put back leaves `_issue_times` alone, or an entry on top that has not
-- expired.
real_enqueue_submission-issue_times :
    (db : Db) (now : ℕ) (s : Markers) (sd : ℕ)
    → ((real_enqueue_submission db now s sd).issue_times ≡ s.issue_times)
      ⊎ (top_expired now s.timeout (real_enqueue_submission db now s sd).issue_times ≡ false)
unfolding real_enqueue_submission issue
real_enqueue_submission-issue_times db now s sd = elim (list-cases s.markers) [
  | inl e ↦ rw e (inl refl)
  | inr (client, rest, e) ↦ elim (Option-cases (retrieve db sd)) [
    | inl d ↦ rw (e, issue, d) (inl refl)
    | inr (stored, d) ↦
        rw (e, issue, d) (inr (push_issue-top_expired now s.timeout client sd s.issue_times))
  ]
]

real_enqueue_submission-timeout :
    (db : Db) (now : ℕ) (s : Markers) (sd : ℕ)
    → (real_enqueue_submission db now s sd).timeout ≡ s.timeout
unfolding real_enqueue_submission issue
real_enqueue_submission-timeout db now s sd = ground arith

time_out-timeout :
    (db : Db) (now : ℕ) (s : Markers) (e : Issue) → (time_out db now s e).timeout ≡ s.timeout
unfolding time_out
time_out-timeout db now s e = ground (
  arith,
  real_enqueue_submission-timeout db now (record s { issued = erase e.client s.issued })
      e.submission,
)

time_out-issue_times :
    (db : Db) (now : ℕ) (s : Markers) (e : Issue)
    → ((time_out db now s e).issue_times ≡ s.issue_times)
      ⊎ (top_expired now s.timeout (time_out db now s e).issue_times ≡ false)
unfolding time_out
time_out-issue_times db now s e = elim (Option-cases (find e.client s.issued)) [
  | inl h ↦ rw (h, time_out) (inl refl)
  | inr (sd, h) ↦ elim (Bool-cases (sd == e.submission)) [
    | inr k ↦ rw (h, time_out, k) (inl refl)
    | inl k ↦
        rw (h, time_out, k)
          (real_enqueue_submission-issue_times db now
            (record s { issued = erase e.client s.issued }) e.submission)
  ]
]

-- While the entry on top has not expired, the loop ends at once.
pub check_loop-top :
    (fuel : ℕ) (db : Db) (now : ℕ) (s : Markers)
    → top_expired now s.timeout s.issue_times ≡ false
    → check_loop fuel db now s ≡ s
unfolding check_loop top_expired
check_loop-top zero db now s h = refl
check_loop-top (suc fuel) db now s h = elim (list-cases s.issue_times) [
  | inl e ↦ ground arith
  | inr (i, rest, e) ↦
      let k : expired now s.timeout i ≡ false = sym (ap (top_expired now s.timeout) e) ∙ h in
      ground arith
]

check_loop_done :
    (fuel : ℕ) (db : Db) (now : ℕ) (s : Markers)
    → length s.issue_times < fuel
    → top_expired now s.timeout (check_loop fuel db now s).issue_times ≡ false
unfolding check_loop top_expired
check_loop_done zero db now s h = absurd (omega arith)
check_loop_done (suc fuel) db now s h = elim (list-cases s.issue_times) [
  | inl e ↦ rw e refl
  | inr (i, rest, e) ↦
      let shorter : length rest < fuel = omega (arith, ap length e) in
      elim (Bool-cases (expired now s.timeout i)) [
        | inr k ↦ rw (e, check_loop, k) (rw e k)
        | inl k ↦
            let s' : Markers = record s { issue_times = rest } in
            let next : Markers = time_out db now s' i in
            let t : next.timeout ≡ s.timeout = time_out-timeout db now s' i in
            rw (e, check_loop, k)
              (subst (λ n. top_expired now n (check_loop fuel db now next).issue_times ≡ false) t
                (elim (time_out-issue_times db now s' i) [
                  | inl same_times ↦
                      check_loop_done fuel db now next
                        (subst (λ l. length l < fuel) (sym same_times) shorter)
                  | inr fresh ↦
                      let top : top_expired now next.timeout next.issue_times ≡ false =
                        subst (λ n. top_expired now n next.issue_times ≡ false) (sym t) fresh in
                      subst (λ x. top_expired now next.timeout x.issue_times ≡ false)
                        (sym (check_loop-top fuel db now next top)) top
                ]))
      ]
]

-- The loop of `check_for_timeouts` runs to its end: no entry is left on top that has expired. This
-- holds for every state, every answer of the database and every time.
pub check_for_timeouts-top_expired :
    (db : Db) (now : ℕ) (s : Markers)
    → top_expired now s.timeout (check_for_timeouts db now s).issue_times ≡ false
unfolding check_for_timeouts
check_for_timeouts-top_expired db now s =
    check_loop_done (suc (length s.issue_times)) db now s (omega arith)
