-- ===== src/Markers.antt =====
-- src/markers.C and include/markers.h: which marker works on which submission. A `ClientConnection*`
-- is a number. Each method holds `_lock` from its first statement to its last, so methods are
-- steps on the state. The database and the clock are arguments: `db` is `none` where
-- `DbCon::getInstance` fails, and otherwise what `retrieveSubmission` finds under an id.
pub mod Pool
pub mod Counts
pub mod Conservation
pub mod Timeouts
pub mod Latest
use abacuscm.Prelude.{
  ℕ, zero, suc, ◌+◌, ◌-◌, ◌*◌, ◌/◌, ◌%◌, ◌^◌, ◌≤◌, ◌<◌, String, ◌≡◌, refl, sym, ap, ◌∙◌, subst, ◌≢◌,
  ◌↔◌, ◌⊎◌, inl, inr, Bool, true, false, not, ◌&&◌, ◌||◌, Option, none, some, List, [], ◌∷◌, ◌++◌,
  map, append-nil, append_assoc, arith, ltb, leb, ◌==◌, if◌then◌else◌, ltb→lt, lt→ltb, leb→le,
  ==_iff, ==_refl, ==_ne, Bool-cases, Option-cases, length, take, drop, length-append,
  take-length_append, take-length, take-append_ge, take-append_le, drop-length_append,
  take-append_drop, length-take, length-drop, All, All-append, list-cases, Bytes, codes, eq_bytes,
  lt_bytes, Lacks, eq_bytes_refl, eq_bytes→eq, eq_bytes_iff, lt_bytes-asymm, lt_bytes_irrefl,
  lt_bytes_trans, lt_bytes-connex, StrictOrder, nat_order, bytes_order, same, find, put, erase,
  same_refl, same→eq, find-put, find-erase, Below, IsSorted, put-Below, put-IsSorted,
  erase-IsSorted,
}
use abacuscm.Decimal.{to_string}
use abacuscm.MessageBlock.{MessageBlock, new, set_header, set_content}

-- What `retrieveSubmission` hands out.
pub record Submission : Type 0 where
  pub content : Bytes
  pub language : Bytes
  pub prob_id : ℕ

abbrev pub Db : Type 0
Db = Option (ℕ → Option Submission)

-- An entry of `_issue_times`: when, to whom, what.
pub record Issue : Type 0 where
  pub time : ℕ
  pub client : ℕ
  pub submission : ℕ

pub record Markers : Type 0 where
  pub issued : List (ℕ × ℕ)
  pub markers : List ℕ
  pub problems : List ℕ
  pub issue_times : List Issue
  pub timeout : ℕ
  pub sent : List (ℕ × MessageBlock)

-- `std::pair`'s order, on which the priority queue is a heap: the greatest entry is on top.
unfoldable pub issue_lt : Issue → Issue → Bool
issue_lt a b =
    ltb a.time b.time
    || ((a.time == b.time)
        && (ltb a.client b.client || ((a.client == b.client) && ltb a.submission b.submission)))

-- `_issue_times.push`: the list is the queue in the order in which it is popped.
unfoldable pub push_issue : Issue → List Issue → List Issue
push_issue e [] = e ∷ []
push_issue e (x ∷ xs) = if issue_lt e x then x ∷ push_issue e xs else e ∷ x ∷ xs

-- `std::find(...) != end()`.
unfoldable pub contains : ℕ → List ℕ → Bool
contains a [] = false
contains a (x ∷ xs) = (x == a) || contains a xs

-- `_markers.erase(std::find(...))`: the first one goes.
unfoldable pub remove : ℕ → List ℕ → List ℕ
remove a [] = []
remove a (x ∷ xs) = if x == a then xs else x ∷ remove a xs

-- The data of a submission, if the database can be reached and has it.
unfoldable pub retrieve : Db → ℕ → Option Submission
retrieve none sd = none
retrieve (some lookup) sd = lookup sd

-- The `mark` block that a marker is sent.
unfoldable pub mark_block : ℕ → Submission → MessageBlock
mark_block sd d =
    set_content
      (set_header
        (set_header (set_header (new (codes "mark")) (codes "submission_id") (to_string sd))
          (codes "prob_id") (to_string d.prob_id))
        (codes "language") d.language)
      (some d.content) true

-- `issue`: both failures put the submission and the marker back into their queues.
unfoldable pub issue : Db → ℕ → Markers → ℕ → ℕ → Markers
issue db now s cc sd = elim (retrieve db sd) [
  | none ↦ record s { problems = s.problems ++ (sd ∷ []); markers = s.markers ++ (cc ∷ []) }
  | some d ↦ record s {
    sent = s.sent ++ ((cc, mark_block sd d) ∷ []);
    issued = put cc sd s.issued;
    issue_times = push_issue (record { time = now; client = cc; submission = sd }) s.issue_times;
  }
]

unfoldable pub real_enqueue_submission : Db → ℕ → Markers → ℕ → Markers
real_enqueue_submission db now s sd = elim s.markers [
  | [] ↦ record s { problems = s.problems ++ (sd ∷ []) }
  | cc ∷ rest ↦ issue db now (record s { markers = rest }) cc sd
]

unfoldable pub real_enqueue_marker : Db → ℕ → Markers → ℕ → Markers
real_enqueue_marker db now s cc = elim s.problems [
  | [] ↦ record s { markers = s.markers ++ (cc ∷ []) }
  | sd ∷ rest ↦ issue db now (record s { problems = rest }) cc sd
]

unfoldable pub enqueue_marker : Db → ℕ → Markers → ℕ → Markers
enqueue_marker db now s cc = elim (find cc s.issued) [
  | some sd ↦ s
  | none ↦ if contains cc s.markers then s else real_enqueue_marker db now s cc
]

unfoldable pub preempt_marker : Db → ℕ → Markers → ℕ → Markers
preempt_marker db now s cc =
    if contains cc s.markers
    then record s { markers = remove cc s.markers }
    else elim (find cc s.issued) [
      | none ↦ s
      | some sd ↦ real_enqueue_submission db now (record s { issued = erase cc s.issued }) sd
    ]

unfoldable pub enqueue_submission : Db → ℕ → Markers → ℕ → Markers
enqueue_submission db now s sd = real_enqueue_submission db now s sd

-- 0 where the marker has nothing.
unfoldable pub has_issued : Markers → ℕ → ℕ
has_issued s cc = elim (find cc s.issued) [ none ↦ 0 | some sd ↦ sd ]

unfoldable pub notify_marked : Db → ℕ → Markers → ℕ → ℕ → Markers
notify_marked db now s cc sd = elim (find cc s.issued) [
  | none ↦ s
  | some held ↦
      let s' = if sd == held then s else real_enqueue_submission db now s held in
      real_enqueue_marker db now (record s' { issued = erase cc s'.issued }) cc
]

-- One round of the loop of `checkForTimeouts`, for the entry that was popped.
unfoldable pub time_out : Db → ℕ → Markers → Issue → Markers
time_out db now s e = elim (find e.client s.issued) [
  | none ↦ s
  | some sd ↦
      if sd == e.submission
      then real_enqueue_submission db now (record s { issued = erase e.client s.issued })
          e.submission
      else s
]

-- `time(NULL) - top.first > _timeout`, on signed numbers.
unfoldable pub expired : ℕ → ℕ → Issue → Bool
expired now timeout e = ltb (e.time + timeout) now

-- The loop of `checkForTimeouts`, with the clock read once. A submission that is issued again gets
-- a fresh entry, which is on top or behind one as late, and neither has expired, so one round for
-- each entry, and one more, is enough (`Markers.Timeouts`).
unfoldable pub check_loop : ℕ → Db → ℕ → Markers → Markers
check_loop zero db now s = s
check_loop (suc fuel) db now s = elim s.issue_times [
  | [] ↦ s
  | e ∷ rest ↦ elim (expired now s.timeout e) [
    | false ↦ s
    | true ↦ check_loop fuel db now (time_out db now (record s { issue_times = rest }) e)
  ]
]

unfoldable pub check_for_timeouts : Db → ℕ → Markers → Markers
unfolding check_loop
check_for_timeouts db now s = check_loop (suc (length s.issue_times)) db now s

unfoldable pub empty : ℕ → Markers
empty timeout = record {
  issued = [];
  markers = [];
  problems = [];
  issue_times = [];
  timeout = timeout;
  sent = [];
}

-- The calls that the rest of the server makes of the object, as they arrive.
pub data Call : Type 0 where
  enqueue_marker_call : ℕ → Call
  preempt_marker_call : ℕ → Call
  enqueue_submission_call : ℕ → Call
  notify_marked_call : ℕ → ℕ → Call
  check_for_timeouts_call : Call

unfoldable pub perform : Db → ℕ → Call → Markers → Markers
perform db now (enqueue_marker_call cc) s = enqueue_marker db now s cc
perform db now (preempt_marker_call cc) s = preempt_marker db now s cc
perform db now (enqueue_submission_call sd) s = enqueue_submission db now s sd
perform db now (notify_marked_call cc sd) s = notify_marked db now s cc sd
perform db now check_for_timeouts_call s = check_for_timeouts db now s

-- The states that calls lead to, whatever the database and the clock say at each of them.
pub data Reachable (timeout : ℕ) : Markers → Type 0 where
  start : Reachable timeout (empty timeout)
  call :
      {s : Markers} (db : Db) (now : ℕ) (c : Call)
      → Reachable timeout s
      → Reachable timeout (perform db now c s)
