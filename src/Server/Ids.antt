-- ===== src/Server/Ids.antt =====
-- The numbers of a server are congruent to its own.
use abacuscm.Prelude.{
  ℕ, ◌+◌, ◌%◌, ◌^◌, ◌≡◌, refl, sym, ap, ◌∙◌, subst, ◌≢◌, ◌⊎◌, inl, inr, Bool, Option, none, some,
  arith, ◌==◌, Bool-cases, Option-cases, nat_order, bytes_order,
}
use mathlib.Core.Path.{ap₂}
use abacuscm.Server.{
  no_id, Counters, get_id, current_max, next_id, next_submission_id, next_clarification_request_id,
  next_clarification_id, next_problem_id, Kind, submission_kind, clarification_request_kind,
  clarification_kind, problem_kind, allocate,
}

-- The number is unset or one of the server `own_id`.
unfoldable pub IsOwn : ℕ → ℕ → Type 0
IsOwn own_id n = (n ≡ 0) ⊎ (n % 16 ≡ own_id % 16)

-- What include/dbcon.h promises of the database's answers, and that the server finds itself.
pub record Answers (own_id : ℕ) (max own : Option ℕ) : Type 0 where
  pub known : own ≡ some own_id
  pub greatest : (m : ℕ) → max ≡ some m → m ≢ no_id → IsOwn own_id m

pub record IsCounting (own_id : ℕ) (s : Counters) : Type 0 where
  pub local : (s.local_id ≡ 0) ⊎ (s.local_id ≡ own_id)
  pub submissions : IsOwn own_id s.submission
  pub clarification_requests : IsOwn own_id s.clarification_request
  pub clarifications : IsOwn own_id s.clarification
  pub problems : IsOwn own_id s.problem

step_mod : (c o : ℕ) → c % 16 ≡ o % 16 → (c + 16) % 2 ^ 32 % 16 ≡ o % 16
step_mod c o h = omega arith

current_max-IsOwn :
    (own_id : ℕ) (max own : Option ℕ) (cur c : ℕ)
    → Answers own_id max own
    → IsOwn own_id cur
    → current_max max cur ≡ some c
    → IsOwn own_id c
unfolding current_max
current_max-IsOwn own_id max own cur c a h e = elim (Bool-cases (cur == 0)) [
  | inr q ↦ let r : c ≡ cur = ground arith in subst (IsOwn own_id) (sym r) h
  | inl q ↦ elim (Option-cases max) [
    | inl r ↦ absurd (ground arith)
    | inr (m, r) ↦ elim (Bool-cases (m == no_id)) [
      | inl t ↦ absurd (ground arith)
      | inr t ↦
          let u : c ≡ m = ground arith in
          subst (IsOwn own_id) (sym u) (a.greatest m r (ground arith))
    ]
  ]
]

get_id-own :
    (own_id local_id : ℕ) (is_master : Bool)
    → own_id ≢ 0
    → (local_id ≡ 0) ⊎ (local_id ≡ own_id)
    → get_id (some own_id) is_master local_id ≡ (own_id, own_id)
unfolding get_id
get_id-own own_id local_id is_master z l = ground arith

-- What a call leaves and returns.
record Issued (own_id : ℕ) (r : ℕ × (ℕ × ℕ)) : Type 0 where
  result : (r.0 ≡ no_id) ⊎ (r.0 % 16 ≡ own_id % 16)
  local_kept : (r.1.0 ≡ 0) ⊎ (r.1.0 ≡ own_id)
  counter : IsOwn own_id r.1.1

next_id-Issued :
    (own_id : ℕ) (max own : Option ℕ) (is_master : Bool) (local_id cur : ℕ)
    → own_id ≢ 0
    → Answers own_id max own
    → (local_id ≡ 0) ⊎ (local_id ≡ own_id)
    → IsOwn own_id cur
    → Issued own_id (next_id max own is_master local_id cur)
unfolding next_id IsOwn
next_id-Issued own_id max own is_master local_id cur z a l h =
    elim (Option-cases (current_max max cur)) [
      | inl e ↦ rw (e, next_id) (record { result = inl refl; local_kept = l; counter = h })
      | inr (c, e) ↦ elim (Bool-cases (c == 0)) [
        | inl q ↦
            let g : get_id own is_master local_id ≡ (own_id, own_id) =
              rw a.known (get_id-own own_id local_id is_master z l) in
            rw (e, next_id, q, g)
              (record { result = inr refl; local_kept = inr refl; counter = inr refl })
        | inr q ↦
            let o : IsOwn own_id c = current_max-IsOwn own_id max own cur c a h e in
            let m : (c + 16) % 2 ^ 32 % 16 ≡ own_id % 16 =
              step_mod c own_id (elim o [ inl t ↦ absurd (ground arith) | inr t ↦ t ]) in
            rw (e, next_id, q) (record { result = inr m; local_kept = l; counter = inr m })
      ]
    ]

-- When the database keeps its promise and knows the server, each of these numbers, unless it is the
-- error `~0U`, is congruent to the server's own modulo 16, and the counters stay so.
pub allocate-IsCounting :
    (own_id : ℕ) (k : Kind) (max own : Option ℕ) (is_master : Bool) (s : Counters)
    → own_id ≢ 0
    → Answers own_id max own
    → IsCounting own_id s
    → (((allocate k max own is_master s).0 ≡ no_id)
        ⊎ ((allocate k max own is_master s).0 % 16 ≡ own_id % 16))
      × IsCounting own_id (allocate k max own is_master s).1
unfolding allocate next_submission_id next_clarification_request_id next_clarification_id
    next_problem_id
allocate-IsCounting own_id submission_kind max own is_master s z a c =
    let i =
      next_id-Issued own_id max own is_master s.local_id s.submission z a c.local c.submissions in
    (
      i.result,
      record {
        local = i.local_kept;
        submissions = i.counter;
        clarification_requests = c.clarification_requests;
        clarifications = c.clarifications;
        problems = c.problems;
      },
    )
allocate-IsCounting own_id clarification_request_kind max own is_master s z a c =
    let i =
      next_id-Issued own_id max own is_master s.local_id s.clarification_request z a c.local
        c.clarification_requests in
    (
      i.result,
      record {
        local = i.local_kept;
        submissions = c.submissions;
        clarification_requests = i.counter;
        clarifications = c.clarifications;
        problems = c.problems;
      },
    )
allocate-IsCounting own_id clarification_kind max own is_master s z a c =
    let i =
      next_id-Issued own_id max own is_master s.local_id s.clarification z a c.local
        c.clarifications in
    (
      i.result,
      record {
        local = i.local_kept;
        submissions = c.submissions;
        clarification_requests = c.clarification_requests;
        clarifications = i.counter;
        problems = c.problems;
      },
    )
allocate-IsCounting own_id problem_kind max own is_master s z a c =
    let i = next_id-Issued own_id max own is_master s.local_id s.problem z a c.local c.problems in
    (
      i.result,
      record {
        local = i.local_kept;
        submissions = c.submissions;
        clarification_requests = c.clarification_requests;
        clarifications = c.clarifications;
        problems = i.counter;
      },
    )

failed_id : (is_master : Bool) → next_id (some 0) none is_master 0 0 ≡ (no_id, (0, no_id))
unfolding next_id current_max get_id
failed_id is_master = refl

after_failure : (max own : Option ℕ) (is_master : Bool) → (next_id max own is_master 0 no_id).0 ≡ 15
unfolding next_id current_max
after_failure max own is_master = refl

-- A call of `nextSubmissionId` that finds no submission of this server, and then cannot find out
-- which server it is, returns the error but keeps `~0U` as its counter: the next call returns 15,
-- whichever server this is and whatever the database answers.
pub next_submission_id_after_error :
    (max own : Option ℕ) (is_master master' : Bool) (s : Counters)
    → s.local_id ≡ 0
    → s.submission ≡ 0
    → (next_submission_id max own master' (next_submission_id (some 0) none is_master s).1).0 ≡ 15
unfolding next_submission_id
next_submission_id_after_error max own is_master master' s h k =
    ap (λ r. (next_id max own master' r.1.0 r.1.1).0)
      (ap₂ (λ l c. next_id (some 0) none is_master l c) h k ∙ failed_id is_master)
    ∙ after_failure max own master'
