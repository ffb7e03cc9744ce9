-- ===== src/Actions/Submit.antt =====
-- `ActSubmit` and `ActSubmissionFileFetcher` of src/act_submit.C, and what a submission that is queued
-- has passed. A handler that throws is not caught anywhere and ends the server: `none`.
pub mod Accepted
use abacuscm.Prelude.{
  ℕ, zero, suc, ◌+◌, ◌-◌, ◌*◌, ◌/◌, ◌%◌, ◌^◌, ◌≤◌, ◌<◌, String, ◌≡◌, refl, sym, ap, ◌∙◌, subst, ◌≢◌,
  ◌↔◌, ◌⊎◌, inl, inr, Bool, true, false, not, ◌&&◌, ◌||◌, Option, none, some, List, [], ◌∷◌, ◌++◌,
  map, append-nil, append_assoc, arith, ltb, leb, ◌==◌, if◌then◌else◌, ltb→lt, lt→ltb, leb→le,
  ==_iff, ==_refl, ==_ne, Bool-cases, Option-cases, ◌>>=◌, length, take, drop, length-append,
  take-length_append, take-length, take-append_ge, take-append_le, drop-length_append,
  take-append_drop, length-take, length-drop, All, All-append, list-cases, Bytes, codes, eq_bytes,
  lt_bytes, Lacks, eq_bytes_refl, eq_bytes→eq, eq_bytes_iff, lt_bytes-asymm, lt_bytes_irrefl,
  lt_bytes_trans, lt_bytes-connex, StrictOrder, nat_order, bytes_order, same, find, put, erase,
  same_refl, same→eq, find-put, find-erase, Below, IsSorted, All-put, put-Below, put-IsSorted,
  erase-IsSorted,
}
use abacuscm.Decimal.{from_string, to_string}
use abacuscm.MessageBlock.{
  MessageBlock, new, header, set_header, set_content, error, ok_reply, bytes_of,
}
use abacuscm.Timer.{contest_status, timer_status_started}
use abacuscm.Server.{next_submission_id, no_id}
use abacuscm.Wire.Submission.{SubmissionMessage}
use abacuscm.Actions.{
  Environment, World, Answers, Content, submission_content, trigger_reply, granted, contains_text,
  uint32_max, max_submission_size,
}

unfoldable pub contains_id : ℕ → List ℕ → Bool
contains_id p [] = false
contains_id p (x ∷ xs) = x == p || contains_id p xs

-- The checks of the database: the message of the error.
unfoldable pub problem_refused : Answers → ℕ → ℕ → Option Bytes
problem_refused db user prob =
    if not (contains_id prob db.problems)
    then some (codes "Invalid prob_id - no such id")
    else if db.has_solved user prob && not (eq_bytes (db.multi_submit prob) (codes "Yes"))
    then some
        (codes "You have already solved this problem, you may no longer submit solutions for it")
    else if not (db.is_submission_allowed user prob)
    then some (codes "You are not allowed to submit a solution for this problem")
    else none

-- `SubmissionMessage(sub_id, prob_id, user_id, content, content_size, language)`
unfoldable pub new_submission : Environment → ℕ → ℕ → ℕ → Bytes → Bytes → SubmissionMessage
new_submission env sub prob user content lang = record {
  submission_id = sub;
  user_id = user;
  prob_id = prob;
  time = env.now;
  server_id = env.own_id;
  content = content;
  language = lang;
}

-- The part behind the checks.
unfoldable pub queue_submission : Environment → ℕ → ℕ → MessageBlock → World → MessageBlock × World
queue_submission env user prob mb w =
    let r = next_submission_id env.max_submission_id env.stored_own_id env.is_master w.counters in
    let w' : World = record w { counters = r.1 } in
    if r.0 == no_id
    then (error (codes "Internal server error. Error obtaining new submission id"), w')
    else trigger_reply env
        (submission_content
          (new_submission env r.0 prob user (bytes_of mb.content) (header mb (codes "lang"))))
        (set_header ok_reply (codes "submission_id") (to_string r.0)) w'

-- The part behind `DbCon::getInstance`, which gave `db`.
unfoldable pub check_submission :
    Environment → ℕ → ℕ → Option Answers → MessageBlock → World → MessageBlock × World
check_submission env cc prob none mb w = (error (codes "Unable to connect to database"), w)
check_submission env cc prob (some db) mb w = elim (problem_refused db (env.who cc).user_id prob) [
  | some msg ↦ (error msg, w)
  | none ↦
      if not (contains_text (header mb (codes "lang")) env.languages)
      then (error (codes "You have not specified the language"), w)
      else queue_submission env (env.who cc).user_id prob mb w
]

unfoldable pub submit : Environment → ℕ → MessageBlock → World → MessageBlock × World
submit env cc mb w =
    if not (contest_status w.timer env.now (env.who cc).group_id 0 == timer_status_started)
    then (error (codes "You cannot submit solutions unless the contest is running"), w)
    else if ltb max_submission_size (length (bytes_of mb.content))
    then (error (codes "Your submission is too large (max 102400 bytes)"), w)
    else elim (from_string uint32_max (header mb (codes "prob_id"))) [
      | none ↦ (error (codes "prob_id isn't a valid integer"), w)
      | some prob ↦ check_submission env cc prob env.db mb w
    ]

-- The files that a marker left, as the database gives them.
pub record MarkFiles : Type 0 where
  pub owner : ℕ → ℕ
  pub count : ℕ → ℕ
  pub file : ℕ → ℕ → Option (Bytes × Bytes)

abbrev pub compile_failed : ℕ
compile_failed = 4

-- The permission bits of include/permissions.h.
abbrev pub permission_see_all_submissions : ℕ
permission_see_all_submissions = 11

abbrev pub permission_see_submission_details : ℕ
permission_see_submission_details = 14

-- Why the files of a submission are not shown.
unfoldable pub file_refused : Environment → Answers → MarkFiles → ℕ → ℕ → Option Bytes
file_refused env db files cc sid =
    let ps = (env.who cc).permissions in
    let details : Option Bytes =
      if granted ps permission_see_submission_details
      then none
      else elim (db.submission_state sid) [
        | none ↦ some (codes "This submission hasn't been marked yet, please be patient :-)")
        | some (resinfo, utype) ↦
            if not (resinfo == compile_failed)
            then some
                (codes "Not allowed to fetch file data for anything except failed compilations")
            else none
      ] in
    elim details [
      | some msg ↦ some msg
      | none ↦
          if granted ps permission_see_all_submissions || (files.owner sid == (env.who cc).user_id)
          then none
          else some (codes "This submission doesn't belong to you; I can't let you look at it")
    ]

unfoldable pub fetch_data : MarkFiles → ℕ → MessageBlock → Option MessageBlock
fetch_data files sid mb = elim (from_string uint32_max (header mb (codes "index"))) [
  | none ↦ none
  | some i ↦ elim (files.file sid i) [
    | none ↦ some (error (codes "Mark file not found"))
    | some (name, bytes) ↦ some (
        set_content
          (set_header (set_header ok_reply (codes "name") name) (codes "length")
            (to_string (length bytes)))
          (some bytes) true)
  ]
]

unfoldable pub fetch_file : Environment → MarkFiles → ℕ → MessageBlock → Option MessageBlock
fetch_file env files cc mb = elim env.db [
  | none ↦ some (error (codes "Error connecting to database"))
  | some db ↦ elim (from_string uint32_max (header mb (codes "submission_id"))) [
    | none ↦ none
    | some sid ↦ elim (file_refused env db files cc sid) [
      | some msg ↦ some (error msg)
      | none ↦
          if eq_bytes (header mb (codes "request")) (codes "count")
          then some (set_header ok_reply (codes "count") (to_string (files.count sid)))
          else if eq_bytes (header mb (codes "request")) (codes "data")
          then fetch_data files sid mb
          else some ok_reply
    ]
  ]
]
