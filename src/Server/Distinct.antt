-- ===== src/Server/Distinct.antt =====
-- No two servers give out the same number.
use abacuscm.Prelude.{
  ℕ, ◌+◌, ◌%◌, ◌^◌, ◌≡◌, refl, sym, ap, ◌∙◌, ◌≢◌, ◌⊎◌, inl, inr, Bool, Option, arith, ◌==◌, ==_iff,
  Bool-cases, Option-cases, nat_order, bytes_order,
}
use abacuscm.Server.{no_id, Counters, current_max, next_server_id, Kind, allocate}
use abacuscm.Server.Ids.{IsOwn, Answers, IsCounting, allocate-IsCounting}

next_server_id-IsCounting :
    (own_id : ℕ) (max : Option ℕ) (s : Counters)
    → IsCounting own_id s
    → IsCounting own_id (next_server_id max s).1
unfolding next_server_id
next_server_id-IsCounting own_id max s c = elim (Option-cases (current_max max s.server)) [
  | inl e ↦ rw (e, next_server_id) c
  | inr (m, e) ↦ elim (Bool-cases (m == 0)) [
    | inl q ↦ rw (e, next_server_id, q) (kept 0)
    | inr q ↦ rw (e, next_server_id, q) (kept ((m + 1) % 2 ^ 32))
  ]
]
  where
    kept : (n : ℕ) → IsCounting own_id (record s { server = n })
    kept n = record {
      local = c.local;
      submissions = c.submissions;
      clarification_requests = c.clarification_requests;
      clarifications = c.clarifications;
      problems = c.problems;
    }

-- The counters of a server after any calls of the functions that hand out numbers, for itself or for
-- new servers, while the database keeps its promise.
pub data Reachable (own_id : ℕ) : Counters → Type 0 where
  start : Reachable own_id (record {
    local_id = 0;
    submission = 0;
    clarification_request = 0;
    clarification = 0;
    server = 0;
    problem = 0;
  })
  allocates :
      {s : Counters} (k : Kind) (max own : Option ℕ) (is_master : Bool)
      → Answers own_id max own
      → Reachable own_id s
      → Reachable own_id (allocate k max own is_master s).1
  adds_server :
      {s : Counters} (max : Option ℕ)
      → Reachable own_id s
      → Reachable own_id (next_server_id max s).1

Reachable-IsCounting :
    (own_id : ℕ) (s : Counters) → own_id ≢ 0 → Reachable own_id s → IsCounting own_id s
unfolding IsOwn
Reachable-IsCounting own_id _ z start = record {
  local = inl refl;
  submissions = inl refl;
  clarification_requests = inl refl;
  clarifications = inl refl;
  problems = inl refl;
}
Reachable-IsCounting own_id _ z (allocates {s} k max own is_master a r) =
    (allocate-IsCounting own_id k max own is_master s z a (Reachable-IsCounting own_id s z r)).1
Reachable-IsCounting own_id _ z (adds_server {s} max r) =
    next_server_id-IsCounting own_id max s (Reachable-IsCounting own_id s z r)

-- Two servers whose numbers are not 0 and differ modulo 16, whatever calls were made on each of them
-- before, hand out different numbers for a new submission, clarification request, clarification or
-- problem, unless the first answers with the error `~0U`, when at these calls and at all before the
-- database of each server keeps its promise on the greatest number and the server finds itself.
pub allocate-distinct :
    (a b : ℕ) (k l : Kind) (max own max' own' : Option ℕ) (is_master is_master' : Bool)
    (s t : Counters)
    → a ≢ 0
    → b ≢ 0
    → a % 16 ≢ b % 16
    → Answers a max own
    → Answers b max' own'
    → Reachable a s
    → Reachable b t
    → ((allocate k max own is_master s).0 ≡ no_id)
      ⊎ ((allocate k max own is_master s).0 ≢ (allocate l max' own' is_master' t).0)
allocate-distinct a b k l max own max' own' is_master is_master' s t za zb d p q r u =
    let (x, _) = allocate-IsCounting a k max own is_master s za p (Reachable-IsCounting a s za r) in
    let (y, _) =
      allocate-IsCounting b l max' own' is_master' t zb q (Reachable-IsCounting b t zb u) in
    elim (Bool-cases ((allocate k max own is_master s).0 == no_id)) [
      | inl n ↦ inl ((==_iff (allocate k max own is_master s).0 no_id).0 n)
      | inr n ↦ inr (λ e. elim x [
        | inl m ↦ ground (arith, m, n)
        | inr m ↦ elim y [
          | inl o ↦ ground (arith, e, o, n)
          | inr o ↦ d (sym m ∙ ap (λ i. i % 16) e ∙ o)
        ]
      ])
    ]
