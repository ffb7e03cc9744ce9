-- ===== src/Actions.antt =====
-- The client actions that make a message: `ClientAction::triggerMessage` of src/clientaction.C and
-- the state that the handlers of src/act_mark.C, src/act_submit.C, src/act_clarify.C,
-- src/act_startstop.C, src/act_passwd.C and src/act_bonus.C share. A message that is queued waits for
-- the thread of `message_handler`.
pub mod Queue
pub mod PlaceMark
pub mod Marks
pub mod Beyond
pub mod Files
pub mod Submit
pub mod Clarify
pub mod Announce
pub mod Concerned
pub mod Admin
use abacuscm.Prelude.{
  ℕ, zero, suc, ◌+◌, ◌-◌, ◌*◌, ◌/◌, ◌%◌, ◌^◌, ◌≤◌, ◌<◌, String, ◌≡◌, refl, sym, ap, ◌∙◌, subst, ◌≢◌,
  ◌↔◌, ◌⊎◌, inl, inr, Bool, true, false, not, ◌&&◌, ◌||◌, Option, none, some, List, [], ◌∷◌, ◌++◌,
  map, append-nil, append_assoc, arith, ltb, leb, ◌==◌, if◌then◌else◌, ltb→lt, lt→ltb, leb→le,
  ==_iff, ==_refl, ==_ne, Bool-cases, Option-cases, ◌>>=◌, length, take, drop, length-append,
  take-length_append, take-length, take-append_ge, take-append_le, drop-length_append,
  take-append_drop, length-take, length-drop, All, All-append, list-cases, Bytes, codes, eq_bytes,
  lt_bytes, Lacks, eq_bytes_refl, eq_bytes→eq, eq_bytes_iff, lt_bytes-asymm, lt_bytes_irrefl,
  lt_bytes_trans, lt_bytes-connex, StrictOrder, nat_order, bytes_order, same, find, put, erase,
  same_refl, same→eq, find-put, find-erase, Below, IsSorted, All-put, put-Below, put-IsSorted,
  erase-IsSorted,
}
use abacuscm.MessageBlock.{MessageBlock, error, ok_reply}
use abacuscm.Markers.{Markers, Db}
use abacuscm.Timer.{Timer}
use abacuscm.Permissions.{PermissionSet, Permission, permission, index}
use abacuscm.ClientEventRegistry.{Client, Registry}
use abacuscm.Server.{Counters}
use abacuscm.Marking.{MarkMessage}
use abacuscm.Wire.Submission.{SubmissionMessage}
use abacuscm.Wire.Clarification.{ClarificationMessage}
use abacuscm.Wire.Small.{MsgStartStop, PasswdMessage, BonusMessage}

-- The messages that the handlers make.
pub data Content : Type 0 where
  mark_content : MarkMessage → Content
  submission_content : SubmissionMessage → Content
  clarification_content : ClarificationMessage → Content
  start_stop_content : MsgStartStop → Content
  passwd_content : PasswdMessage → Content
  bonus_content : BonusMessage → Content

-- The objects that the handlers change: the markers, the registry, the counters of server.C and the
-- message queue.
pub record World : Type 0 where
  pub markers : Markers
  pub registry : Registry
  pub counters : Counters
  pub timer : Timer
  pub queue : List Content

-- What the database says: `none` is a `DbCon::getInstance` that fails.
pub record Answers : Type 0 where
  pub submission_state : ℕ → Option (ℕ × ℕ)
  pub problems : List ℕ
  pub has_solved : ℕ → ℕ → Bool
  pub multi_submit : ℕ → Bytes
  pub is_submission_allowed : ℕ → ℕ → Bool
  pub has_clarification_request : ℕ → Bool

-- What a handler asks: the connections, the clock, the database, whether `makeMessage` succeeds for a
-- content (`Message.make_message`), the configuration and the password hash.
pub record Environment : Type 0 where
  pub who : ℕ → Client
  pub now : ℕ
  pub own_id : ℕ
  pub db : Option Answers
  pub marker_db : Db
  pub makes : Content → Bool
  pub permissions_of : ℕ → PermissionSet
  pub languages : List Bytes
  pub hashpw : ℕ → Bytes → Bytes
  pub max_submission_id : Option ℕ
  pub max_clarification_request_id : Option ℕ
  pub max_clarification_id : Option ℕ
  pub stored_own_id : Option ℕ
  pub is_master : Bool

-- `triggerMessage`: the reply is given whether or not the message is processed without an error.
unfoldable pub trigger_reply : Environment → Content → MessageBlock → World → MessageBlock × World
trigger_reply env c reply w =
    if env.makes c
    then (reply, record w { queue = w.queue ++ c ∷ [] })
    else (error (codes "Internal error creating message.  This is indicative of a bug."), w)

unfoldable pub trigger_message : Environment → Content → World → MessageBlock × World
trigger_message env c w = trigger_reply env c ok_reply w

-- `permissions()[p]`, on a set that has every permission.
unfoldable pub granted : PermissionSet → ℕ → Bool
granted ps p = elim (index ps (permission p)) [ none ↦ false | some b ↦ b ]

-- `std::find(...) != end()` on texts.
unfoldable pub contains_text : Bytes → List Bytes → Bool
contains_text t [] = false
contains_text t (x ∷ xs) = eq_bytes x t || contains_text t xs

-- `MAX_SUBMISSION_SIZE` of include/acmconfig.h.
abbrev pub max_submission_size : ℕ
max_submission_size = 100 * 1024

-- The greatest `uint32_t`.
abbrev pub uint32_max : ℕ
uint32_max = 2 ^ 32 - 1
