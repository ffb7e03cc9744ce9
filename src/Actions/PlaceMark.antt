-- ===== src/Actions/PlaceMark.antt =====
-- `ActSubscribeMark` and `ActPlaceMark` of src/act_mark.C. `none` is a copy from beyond the content of
-- the request.
use abacuscm.Prelude.{
  ℕ, zero, suc, ◌+◌, Bool, true, false, not, ◌&&◌, ◌||◌, Option, none, some, [], ◌∷◌, ◌++◌, ltb,
  leb, ◌==◌, if◌then◌else◌, ◌>>=◌, length, take, drop, Bytes, codes, nat_order, bytes_order,
}
use abacuscm.Decimal.{is_digit, digits_value, from_string, to_string}
use abacuscm.MessageBlock.{MessageBlock, header, has_attribute, error, ok_reply, bytes_of}
use abacuscm.Markers.{enqueue_marker, preempt_marker, has_issued, notify_marked}
use abacuscm.Marking.{MarkMessage, add_file}
use abacuscm.Actions.{Environment, World, mark_content, trigger_message, granted, uint32_max}

unfoldable pub subscribe_mark : Environment → ℕ → MessageBlock → World → MessageBlock × World
subscribe_mark env cc mb w =
    (ok_reply, record w { markers = enqueue_marker env.marker_db env.now w.markers cc })

-- The numbers of include/permissions.h.
abbrev pub permission_mark : ℕ
permission_mark = 16

abbrev pub permission_judge : ℕ
permission_judge = 17

abbrev pub permission_judge_override : ℕ
permission_judge_override = 18

-- `JUDGE` of include/misc.h.
abbrev pub judge_result : ℕ
judge_result = 5

-- The checks of a judge against the state of the submission.
unfoldable pub judge_legal : Environment → ℕ → Option Bytes
judge_legal env sid = elim env.db [
  | none ↦ some (codes "Error connecting to database")
  | some db ↦ elim (db.submission_state sid) [
    | none ↦ some (
        codes
          "This hasn't been compiled or even run: you really think I'm going to let you fiddle with the marks?")
    | some (resinfo, utype) ↦
        if granted (env.permissions_of utype) permission_judge
        then some (codes "Another judge has already judged this submission, sorry!")
        else if not (resinfo == judge_result)
        then some (
            codes
              "You cannot change the status of this submission: the decision was black and white; no human required.")
        else none
  ]
]

-- The permission checks: the message of the error, `none` where the mark is legal.
unfoldable pub mark_legal : Environment → ℕ → ℕ → World → Option Bytes
mark_legal env cc sid w =
    let ps = (env.who cc).permissions in
    if granted ps permission_judge_override
    then none
    else if granted ps permission_mark
    then (if has_issued w.markers cc == sid
        then none
        else some (codes "Markers may only mark submissions issued to them"))
    else if granted ps permission_judge
    then judge_legal env sid
    else some (codes "You do not have permission to do this")

-- Digits at the front of a text, and the rest.
unfoldable pub span_digits : Bytes → Bytes × Bytes
span_digits [] = ([], [])
span_digits (c ∷ cs) = let r = span_digits cs in if is_digit c then (c ∷ r.0, r.1) else ([], c ∷ cs)

unfoldable pub all_printable : Bytes → Bool
all_printable [] = true
all_printable (c ∷ cs) = leb 32 c && leb c 126 && all_printable cs

-- `[0-9]{1,7}` and a space.
unfoldable pub number_field : Bytes → Option (ℕ × Bytes)
number_field s =
    let r = span_digits s in
    if (length r.0 == 0) || ltb 7 (length r.0) then none else elim r.1 [
      | [] ↦ none
      | c ∷ rest ↦ if c == 32 then some (digits_value 0 r.0, rest) else none
    ]

-- `[[:print:]]+` up to the end.
unfoldable pub text_field : Bytes → Option Bytes
text_field [] = none
text_field (c ∷ cs) = if all_printable (c ∷ cs) then some (c ∷ cs) else none

-- What `regexec` sees of the text that `c_str` points to: it ends at the first zero.
unfoldable pub c_str : Bytes → Bytes
c_str [] = []
c_str (c ∷ cs) = if c == 0 then [] else c ∷ c_str cs

-- The description of a file: where it starts in the content, its size and its name.
unfoldable pub parse_description : Bytes → Option (ℕ × ℕ × Bytes)
parse_description s = do
  (start, p1) ← number_field (c_str s)
  (size, p2) ← number_field p1
  name ← text_field p2
  some (start, size, name)

-- The copy that `addFile` makes of `mb->content() + start`; of no bytes, nothing is read.
unfoldable pub slice : Bytes → ℕ → ℕ → Option Bytes
slice content start size =
    if (size == 0) || leb (start + size) (length content)
    then some (take size (drop start content))
    else none

unfoldable pub file_name : ℕ → Bytes
file_name c = codes "file" ++ to_string c

-- The loop over the files, from the number `c` on. Each round finds another header, so one round more
-- than there are headers is enough (`Actions.Beyond`).
unfoldable pub collect_files : ℕ → ℕ → MessageBlock → MarkMessage → Option MarkMessage
collect_files zero c mb m = none
collect_files (suc fuel) c mb m = elim (has_attribute mb (file_name c)) [
  | false ↦ some m
  | true ↦ elim (parse_description (header mb (file_name c))) [
    | none ↦ collect_files fuel (suc c) mb m
    | some (start, size, name) ↦ elim (slice (bytes_of mb.content) start size) [
      | none ↦ none
      | some bytes ↦ collect_files fuel (suc c) mb (add_file name bytes m)
    ]
  ]
]

-- `MarkMessage(submission_id, marker, result, comment)`
unfoldable pub new_mark : Environment → ℕ → ℕ → ℕ → Bytes → MarkMessage
new_mark env sid marker result comment = record {
  submission_id = sid;
  marker = marker;
  result = result;
  time = env.now;
  server_id = env.own_id;
  comment = comment;
  files = [];
}

-- `preemptMarker(cc)` and an error.
unfoldable pub preempt_with : Environment → ℕ → Bytes → World → MessageBlock × World
preempt_with env cc msg w =
    (error msg, record w { markers = preempt_marker env.marker_db env.now w.markers cc })

-- What follows the loop.
unfoldable pub finish_mark : Environment → ℕ → ℕ → MarkMessage → World → MessageBlock × World
finish_mark env cc sid m w =
    trigger_message env (mark_content m)
      (record w { markers = notify_marked env.marker_db env.now w.markers cc sid })

unfoldable pub place_mark : Environment → ℕ → MessageBlock → World → Option (MessageBlock × World)
place_mark env cc mb w = elim (from_string uint32_max (header mb (codes "submission_id"))) [
  | none ↦ some (preempt_with env cc (codes "Invalid submission_id") w)
  | some sid ↦ elim (mark_legal env cc sid w) [
    | some msg ↦ some (error msg, w)
    | none ↦ elim (from_string uint32_max (header mb (codes "result"))) [
      | none ↦ some (preempt_with env cc (codes "You must specify the result") w)
      | some result ↦
          elim (collect_files (suc (length mb.headers)) 0 mb
            (new_mark env sid (env.who cc).user_id result (header mb (codes "comment")))) [
              | none ↦ none
              | some m ↦ some (finish_mark env cc sid m w)
            ]
    ]
  ]
]
