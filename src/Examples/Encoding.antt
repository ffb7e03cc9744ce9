-- ===== src/Examples/Encoding.antt =====
-- The theorems on the messages between servers at concrete inputs, where their hypotheses hold.
use abacuscm.Prelude.{
  ℕ, zero, suc, ◌≡◌, refl, ◌≢◌, Option, none, some, [], ◌∷◌, arith, Bytes, codes, nat_order,
  bytes_order,
}
use abacuscm.Wire.{put_word, fault, loaded}
use abacuscm.Wire.Clarification.{ClarificationMessage, IsPlain, load_safe, load-store_clarification}
use abacuscm.Wire.Submission.{
  SubmissionMessage, IsEncodable, storage_required, store, load-store, load-overrun,
}
use abacuscm.Wire.Small.{MsgStartStop, store_start_stop}
use abacuscm.Wire.Submission as Submission
use abacuscm.Wire.Clarification as Clarification

load_safe_example : Clarification.load (1 ∷ 2 ∷ []) ≢ fault
load_safe_example = load_safe (1 ∷ 2 ∷ [])

-- The bytes in a result.
some_of : Option Bytes → Bytes
some_of none = []
some_of (some b) = b

abbrev blank : ℕ → Bytes
blank zero = []
blank (suc n) = 7 ∷ blank n

abbrev submission : SubmissionMessage
submission = record {
  submission_id = 3;
  user_id = 5;
  prob_id = 1;
  time = 70000;
  server_id = 3;
  content = 1 ∷ 0 ∷ [];
  language = codes "C";
}

submission-IsEncodable : IsEncodable submission
submission-IsEncodable = record {
  small_submission_id = omega arith;
  small_user_id = omega arith;
  small_prob_id = omega arith;
  small_time = omega arith;
  small_server_id = omega arith;
  small_content = omega arith;
  plain_language = (ground arith, tt);
}

stored_submission : store submission (blank 28) ≡ some (some_of (store submission (blank 28)))
unfolding store storage_required some_of
stored_submission = refl

load-store_example :
    Submission.load (some_of (store submission (blank 28)))
    ≡ loaded submission (storage_required submission)
load-store_example =
    load-store submission (blank 28) (some_of (store submission (blank 28))) submission-IsEncodable
      stored_submission

load-overrun_example :
    Submission.load
      (put_word 3 (put_word 5 (put_word 1 (put_word 70000 (put_word 3 (put_word 2 (1 ∷ 0 ∷ [])))))))
    ≡ fault
load-overrun_example =
    load-overrun 3 5 1 70000 3 (1 ∷ 0 ∷ []) (omega arith) (omega arith) (omega arith) (omega arith)
      (omega arith) (omega arith)

abbrev start : MsgStartStop
start = record { group_id = 0; time = 70000; action = 1 }

stored_start :
    store_start_stop start (blank 12) ≡ some (some_of (store_start_stop start (blank 12)))
unfolding store_start_stop some_of
stored_start = refl

abbrev question : ClarificationMessage
question = record {
  request = 1;
  clarification_request_id = 19;
  clarification_id = 0;
  user_id = 5;
  prob_id = 1;
  time = 70000;
  server_id = 3;
  text = codes "x";
}

question-IsPlain : IsPlain question
question-IsPlain = record {
  small_request = omega arith;
  small_clarification_request_id = omega arith;
  small_clarification_id = omega arith;
  small_user_id = omega arith;
  small_prob_id = omega arith;
  small_time = omega arith;
  small_server_id = omega arith;
  plain_text = (ground arith, tt);
}

stored_question :
    Clarification.store question (blank 30)
    ≡ some (some_of (Clarification.store question (blank 30)))
unfolding Clarification.store Clarification.storage_required some_of
stored_question = refl

load-store_clarification_example :
    Clarification.load (some_of (Clarification.store question (blank 30)))
    ≡ loaded question (Clarification.storage_required question)
load-store_clarification_example =
    load-store_clarification question (blank 30) (some_of (Clarification.store question (blank 30)))
      question-IsPlain stored_question
