-- ===== src/Actions/Clarify.antt =====
-- `ActClarificationRequest` and `ActClarification` of src/act_clarify.C.
use abacuscm.Prelude.{
  ℕ, ◌⊎◌, inl, inr, Bool, not, ◌||◌, none, some, [], ◌==◌, if◌then◌else◌, Bytes, codes, eq_bytes,
  nat_order, bytes_order,
}
use abacuscm.Decimal.{from_string}
use abacuscm.MessageBlock.{MessageBlock, header, error}
use abacuscm.Server.{next_clarification_request_id, next_clarification_id, no_id}
use abacuscm.Wire.Clarification.{ClarificationMessage}
use abacuscm.Actions.{Environment, World, clarification_content, trigger_message, uint32_max}
use abacuscm.Actions.Submit.{contains_id}

-- The constructor for a request.
unfoldable pub new_request : Environment → ℕ → ℕ → ℕ → Bytes → ClarificationMessage
new_request env id prob user question = record {
  request = 1;
  clarification_request_id = id;
  clarification_id = 0;
  user_id = user;
  prob_id = prob;
  time = env.now;
  server_id = env.own_id;
  text = question;
}

-- The constructor for an answer, which keeps in `prob_id` whether it is public.
unfoldable pub new_answer : Environment → ℕ → ℕ → ℕ → Bool → Bytes → ClarificationMessage
new_answer env request id user public answer = record {
  request = 0;
  clarification_request_id = request;
  clarification_id = id;
  user_id = user;
  prob_id = if public then 1 else 0;
  time = env.now;
  server_id = env.own_id;
  text = answer;
}

-- The problem that a request is about: 0 for none, or the message of the error.
unfoldable pub asked_problem : Environment → Bytes → Bytes ⊎ ℕ
asked_problem env s =
    if eq_bytes s (codes "0") || eq_bytes s [] then inr 0 else elim (from_string uint32_max s) [
      | none ↦ inl (codes "prob_id isn't a valid integer")
      | some prob ↦ elim env.db [
        | none ↦ inl (codes "Unable to connect to database")
        | some db ↦
            if contains_id prob db.problems
            then inr prob
            else inl (codes "Invalid prob_id - no such id")
      ]
    ]

unfoldable pub clarification_request : Environment → ℕ → MessageBlock → World → MessageBlock × World
clarification_request env cc mb w = elim (asked_problem env (header mb (codes "prob_id"))) [
  | inl msg ↦ (error msg, w)
  | inr prob ↦
      let r =
        next_clarification_request_id env.max_clarification_request_id env.stored_own_id
          env.is_master w.counters in
      let w' : World = record w { counters = r.1 } in
      if r.0 == no_id
      then (error (codes "Internal server error. Error obtaining new clarification request id"), w')
      else trigger_message env
          (clarification_content
            (new_request env r.0 prob (env.who cc).user_id (header mb (codes "question"))))
          w'
]

unfoldable pub clarification : Environment → ℕ → MessageBlock → World → MessageBlock × World
clarification env cc mb w =
    elim (from_string uint32_max (header mb (codes "clarification_request_id"))) [
      | none ↦ (error (codes "clarification_request_id isn't a valid integer"), w)
      | some request ↦ elim env.db [
        | none ↦ (error (codes "Unable to connect to database"), w)
        | some db ↦
            if not (db.has_clarification_request request)
            then (error (codes "Invalid clarification_request_id - no such id"), w)
            else let r =
                next_clarification_id env.max_clarification_id env.stored_own_id env.is_master
                  w.counters in
              let w' : World = record w { counters = r.1 } in
              if r.0 == no_id
              then (error (codes "Internal server error. Error obtaining new clarification id"), w')
              else trigger_message env
                  (clarification_content (
                    new_answer env request r.0 (env.who cc).user_id
                      (eq_bytes (header mb (codes "public")) (codes "1"))
                      (header mb (codes "answer"))))
                  w'
      ]
    ]
