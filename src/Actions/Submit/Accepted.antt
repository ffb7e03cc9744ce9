-- ===== src/Actions/Submit/Accepted.antt =====
-- A submission that is queued has passed every check.
use abacuscm.Prelude.{
  ℕ, ◌≤◌, ◌≡◌, refl, ◌⊎◌, inl, inr, true, false, not, ◌&&◌, Option, none, some, [], ◌∷◌, ◌++◌,
  arith, ltb, ◌==◌, ==_iff, Bool-cases, Option-cases, length, codes, eq_bytes, nat_order,
  bytes_order,
}
use abacuscm.Decimal.{from_string}
use abacuscm.MessageBlock.{MessageBlock, header, bytes_of}
use abacuscm.Timer.{contest_status, timer_status_started}
use abacuscm.Server.{next_submission_id, no_id}
use abacuscm.Wire.Submission.{SubmissionMessage}
use abacuscm.Actions.{
  ok_reply, Environment, World, Answers, submission_content, contains_text, uint32_max,
  max_submission_size,
}
use abacuscm.Actions.Queue.{trigger_reply-queue}
use abacuscm.Actions.Submit.{
  check_submission, to_string, set_header, new_submission, submit, queue_submission, contains_id,
  problem_refused,
}

-- What the rules of the contest ask of a submission.
pub record IsAccepted (env : Environment) (cc : ℕ) (mb : MessageBlock) (w : World)
    (m : SubmissionMessage) : Type 0 where
  pub running : contest_status w.timer env.now (env.who cc).group_id 0 ≡ timer_status_started
  pub fits : length (bytes_of mb.content) ≤ max_submission_size
  pub problem : from_string uint32_max (header mb (codes "prob_id")) ≡ some m.prob_id
  pub allowed :
      (db : Answers) × (env.db ≡ some db)
      × (contains_id m.prob_id db.problems ≡ true)
      × ((db.has_solved (env.who cc).user_id m.prob_id
            && not (eq_bytes (db.multi_submit m.prob_id) (codes "Yes")))
          ≡ false)
      × (db.is_submission_allowed (env.who cc).user_id m.prob_id ≡ true)
  pub known_language : contains_text m.language env.languages ≡ true
  pub own : m.user_id ≡ (env.who cc).user_id
  pub whole : m.content ≡ bytes_of mb.content
  pub numbered :
      m.submission_id
      ≡ (next_submission_id env.max_submission_id env.stored_own_id env.is_master w.counters).0
  pub number_valid : (m.submission_id == no_id) ≡ false

-- The queue is as it was, or an accepted submission is at its end.
abbrev pub Queued : Environment → ℕ → MessageBlock → World → MessageBlock × World → Type 0
Queued env cc mb w r =
    (r.1.queue ≡ w.queue)
    ⊎ ((m : SubmissionMessage) × IsAccepted env cc mb w m
        × (r.1.queue ≡ w.queue ++ submission_content m ∷ []))

problem_refused-none :
    (db : Answers) (user prob : ℕ)
    → problem_refused db user prob ≡ none
    → (contains_id prob db.problems ≡ true)
      × ((db.has_solved user prob && not (eq_bytes (db.multi_submit prob) (codes "Yes"))) ≡ false)
      × (db.is_submission_allowed user prob ≡ true)
unfolding problem_refused
problem_refused-none db user prob h = elim (Bool-cases (contains_id prob db.problems)) [
  | inr a ↦ absurd (ground (arith, a))
  | inl a ↦
      elim (Bool-cases
        (db.has_solved user prob && not (eq_bytes (db.multi_submit prob) (codes "Yes")))) [
          | inl b ↦
              let q : problem_refused db user prob
                  ≡ some (
                      codes
                        "You have already solved this problem, you may no longer submit solutions for it") =
                rw (a, problem_refused, b) refl in
              absurd (ground (arith, q, h))
          | inr b ↦ elim (Bool-cases (db.is_submission_allowed user prob)) [
            | inl c ↦ (a, b, c)
            | inr c ↦
                let q : problem_refused db user prob
                    ≡ some (codes "You are not allowed to submit a solution for this problem") =
                  rw (a, problem_refused, b, c) refl in
                absurd (ground (arith, q, h))
          ]
        ]
]

-- Every check is passed: what is left to do keeps to the rules.
queue_submission-Queued :
    (env : Environment) (cc prob : ℕ) (mb : MessageBlock) (w : World)
    → (contest_status w.timer env.now (env.who cc).group_id 0 == timer_status_started) ≡ true
    → ltb max_submission_size (length (bytes_of mb.content)) ≡ false
    → from_string uint32_max (header mb (codes "prob_id")) ≡ some prob
    → (db : Answers) → env.db ≡ some db
    → problem_refused db (env.who cc).user_id prob ≡ none
    → contains_text (header mb (codes "lang")) env.languages ≡ true
    → Queued env cc mb w (queue_submission env (env.who cc).user_id prob mb w)
unfolding queue_submission new_submission
queue_submission-Queued env cc prob mb w run fit e db d p l =
    let r = next_submission_id env.max_submission_id env.stored_own_id env.is_master w.counters in
    elim (Bool-cases (r.0 == no_id)) [
      | inl n ↦ inl (rw (n, queue_submission) refl)
      | inr n ↦
          let m : SubmissionMessage =
            new_submission env r.0 prob (env.who cc).user_id (bytes_of mb.content)
              (header mb (codes "lang")) in
          let (a, b, c) = problem_refused-none db (env.who cc).user_id prob p in
          let ok : IsAccepted env cc mb w m = record {
            running = (==_iff _ _).0 run;
            fits = ground arith;
            problem = e;
            allowed = (db, d, a, b, c);
            known_language = l;
            own = refl;
            whole = refl;
            numbered = refl;
            number_valid = n;
          } in
          rw (n, queue_submission)
            (elim (trigger_reply-queue env (submission_content m)
              (set_header ok_reply (codes "submission_id") (to_string r.0))
              (record w { counters = r.1 })) [ inl q ↦ inl q | inr q ↦ inr (m, ok, q) ])
    ]

check_submission-Queued :
    (env : Environment) (cc prob : ℕ) (mb : MessageBlock) (w : World)
    → (contest_status w.timer env.now (env.who cc).group_id 0 == timer_status_started) ≡ true
    → ltb max_submission_size (length (bytes_of mb.content)) ≡ false
    → from_string uint32_max (header mb (codes "prob_id")) ≡ some prob
    → (o : Option Answers) → env.db ≡ o
    → Queued env cc mb w (check_submission env cc prob o mb w)
unfolding check_submission
check_submission-Queued env cc prob mb w s z e none d = inl refl
check_submission-Queued env cc prob mb w s z e (some db) d =
    elim (Option-cases (problem_refused db (env.who cc).user_id prob)) [
      | inr (msg, p) ↦ inl (rw (p, check_submission) refl)
      | inl p ↦ elim (Bool-cases (contains_text (header mb (codes "lang")) env.languages)) [
        | inr l ↦ inl (rw (p, check_submission, l) refl)
        | inl l ↦
            rw (p, check_submission, l) (queue_submission-Queued env cc prob mb w s z e db d p l)
      ]
    ]

-- `submit` queues at most one submission, and only one that the contest accepts: the contest runs for
-- the group of the client, the size, the problem and the language are allowed, the problem is not
-- solved already unless it takes more, and the submission is the client's whole content under the
-- next number.
pub submit-IsAccepted :
    (env : Environment) (cc : ℕ) (mb : MessageBlock) (w : World)
    → Queued env cc mb w (submit env cc mb w)
unfolding submit
submit-IsAccepted env cc mb w =
    elim (Bool-cases
      (contest_status w.timer env.now (env.who cc).group_id 0 == timer_status_started)) [
        | inr s ↦ inl (rw (s, submit) refl)
        | inl s ↦ elim (Bool-cases (ltb max_submission_size (length (bytes_of mb.content)))) [
          | inl z ↦ inl (rw (s, submit, z) refl)
          | inr z ↦ elim (Option-cases (from_string uint32_max (header mb (codes "prob_id")))) [
            | inl e ↦ inl (rw (s, submit, z, e) refl)
            | inr (prob, e) ↦
                rw (s, submit, z, e) (check_submission-Queued env cc prob mb w s z e env.db refl)
          ]
        ]
      ]
