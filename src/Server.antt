-- ===== src/Server.antt =====
-- src/server.C and include/server.h: the numbers that a server gives to new submissions,
-- clarifications and so on. The counters are the functions' static variables; each call holds its
-- lock, so calls are steps on the counters. `max` is what the database says is the greatest number
-- of this server that is in use: `none` where `DbCon::getInstance` fails, `2 ^ 32 - 1` where the
-- query fails. `own` is what `server_id` finds for the configured name, `none` where it is not
-- asked. Every number is a `uint32_t`.
pub mod Ids
pub mod Distinct
use abacuscm.Prelude.{
  ℕ, zero, suc, ◌+◌, ◌-◌, ◌*◌, ◌/◌, ◌%◌, ◌^◌, ◌≤◌, ◌<◌, String, ◌≡◌, refl, sym, ap, ◌∙◌, subst, ◌≢◌,
  ◌↔◌, ◌⊎◌, inl, inr, Bool, true, false, not, ◌&&◌, ◌||◌, Option, none, some, List, [], ◌∷◌, ◌++◌,
  map, append-nil, append_assoc, arith, ltb, leb, ◌==◌, if◌then◌else◌, ltb→lt, lt→ltb, leb→le,
  ==_iff, ==_refl, ==_ne, Bool-cases, Option-cases, ◌>>=◌, length, take, drop, length-append,
  take-length_append, take-length, take-append_ge, take-append_le, drop-length_append,
  take-append_drop, length-take, length-drop, All, All-append, list-cases, Bytes, codes, eq_bytes,
  lt_bytes, Lacks, eq_bytes_refl, eq_bytes→eq, eq_bytes_iff, lt_bytes-asymm, lt_bytes_irrefl,
  lt_bytes_trans, lt_bytes-connex, StrictOrder, nat_order, bytes_order, same, find, put, erase,
  same_refl, same→eq, find-put, find-erase, Below, IsSorted, All-put, put-Below, put-IsSorted,
  erase-IsSorted,
}

abbrev pub max_servers : ℕ
max_servers = 16

abbrev pub id_granularity : ℕ
id_granularity = max_servers

-- `~0U`
abbrev pub no_id : ℕ
no_id = 2 ^ 32 - 1

pub record Counters : Type 0 where
  pub local_id : ℕ
  pub submission : ℕ
  pub clarification_request : ℕ
  pub clarification : ℕ
  pub server : ℕ
  pub problem : ℕ

-- `getId` on its static `local_id`: the number that it returns and the one that it keeps.
unfoldable pub get_id : Option ℕ → Bool → ℕ → ℕ × ℕ
get_id own is_master local_id = elim (local_id == 0) [
  | false ↦ (local_id, local_id)
  | true ↦ elim own [
    | none ↦ (no_id, local_id)
    | some n ↦ let l : ℕ = if (n == 0) && is_master then 1 else n in (l, l)
  ]
]

-- The `if(!cur_max_id)` in front: `none` is `goto err`.
unfoldable pub current_max : Option ℕ → ℕ → Option ℕ
current_max max cur = elim (cur == 0) [
  | false ↦ some cur
  | true ↦ elim max [ none ↦ none | some m ↦ if m == no_id then none else some m ]
]

-- What the four functions of this shape do: the result, then `local_id` and the counter they leave.
unfoldable pub next_id : Option ℕ → Option ℕ → Bool → ℕ → ℕ → ℕ × (ℕ × ℕ)
next_id max own is_master local_id cur = elim (current_max max cur) [
  | none ↦ (no_id, (local_id, cur))
  | some c ↦ elim (c == 0) [
    | true ↦ let r = get_id own is_master local_id in (r.0, (r.1, r.0))
    | false ↦ let n : ℕ = (c + id_granularity) % 2 ^ 32 in (n, (local_id, n))
  ]
]

unfoldable pub next_submission_id : Option ℕ → Option ℕ → Bool → Counters → ℕ × Counters
next_submission_id max own is_master s =
    let r = next_id max own is_master s.local_id s.submission in
    (r.0, record s { local_id = r.1.0; submission = r.1.1 })

unfoldable pub next_clarification_request_id : Option ℕ → Option ℕ → Bool → Counters → ℕ × Counters
next_clarification_request_id max own is_master s =
    let r = next_id max own is_master s.local_id s.clarification_request in
    (r.0, record s { local_id = r.1.0; clarification_request = r.1.1 })

unfoldable pub next_clarification_id : Option ℕ → Option ℕ → Bool → Counters → ℕ × Counters
next_clarification_id max own is_master s =
    let r = next_id max own is_master s.local_id s.clarification in
    (r.0, record s { local_id = r.1.0; clarification = r.1.1 })

unfoldable pub next_problem_id : Option ℕ → Option ℕ → Bool → Counters → ℕ × Counters
next_problem_id max own is_master s =
    let r = next_id max own is_master s.local_id s.problem in
    (r.0, record s { local_id = r.1.0; problem = r.1.1 })

-- `nextServerId` counts in ones, and fails where there is no server at all.
unfoldable pub next_server_id : Option ℕ → Counters → ℕ × Counters
next_server_id max s = elim (current_max max s.server) [
  | none ↦ (no_id, s)
  | some c ↦ elim (c == 0) [
    | true ↦ (no_id, record s { server = 0 })
    | false ↦ let n : ℕ = (c + 1) % 2 ^ 32 in (n, record s { server = n })
  ]
]

-- The functions of include/server.h that count in steps of ID_GRANULARITY; `next_server_id` does not.
pub data Kind : Type 0 where
  submission_kind : Kind
  clarification_request_kind : Kind
  clarification_kind : Kind
  problem_kind : Kind

unfoldable pub allocate : Kind → Option ℕ → Option ℕ → Bool → Counters → ℕ × Counters
allocate submission_kind max own is_master s = next_submission_id max own is_master s
allocate clarification_request_kind max own is_master s =
    next_clarification_request_id max own is_master s
allocate clarification_kind max own is_master s = next_clarification_id max own is_master s
allocate problem_kind max own is_master s = next_problem_id max own is_master s
