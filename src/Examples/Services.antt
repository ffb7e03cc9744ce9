-- ===== src/Examples/Services.antt =====
-- The theorems on timeouts, numbers and connections at concrete inputs, where their hypotheses hold.
use abacuscm.Prelude.{
  ℕ, ◌≡◌, refl, ◌≢◌, ◌⊎◌, false, some, List, [], ◌∷◌, ◌++◌, arith, codes, nat_order, bytes_order,
  find, put,
}
use abacuscm.MessageBlock.{new}
use abacuscm.Permissions.{empty_set}
use abacuscm.Markers.{
  Db, Markers, perform, enqueue_marker_call, enqueue_submission_call, empty, Reachable, start, call,
  enqueue_submission, enqueue_marker, real_enqueue_submission, real_enqueue_marker, issue, retrieve,
  push_issue, issue_lt, contains, check_for_timeouts,
}
use abacuscm.Markers.Latest.{check_for_timeouts_blocked}
use abacuscm.Server.{no_id, Counters, allocate, submission_kind}
use abacuscm.Server.Ids.{IsOwn, Answers}
use abacuscm.Server.Distinct.{start as uncounted, allocates, allocate-distinct}
use abacuscm.ClientEventRegistry.{Client, send_message}
use abacuscm.ClientEventRegistry.Sessions.{
  Step, registers, deregisters, after, is_live, receives, send_message-is_live,
}

-- Two markers are issued submissions at 10 and at 90.
abbrev stocked : Db
stocked = some (λ sd. some (record { content = []; language = []; prob_id = 1 }))

abbrev two_issues : Markers
two_issues = perform stocked 90 (enqueue_submission_call 4) (
    perform stocked 90 (enqueue_marker_call 9) (
      perform stocked 10 (enqueue_submission_call 3)
        (perform stocked 10 (enqueue_marker_call 8) (empty 60))))

two_issues-Reachable : Reachable 60 two_issues
two_issues-Reachable = call stocked 90 (enqueue_submission_call 4) (
    call stocked 90 (enqueue_marker_call 9)
      (call stocked 10 (enqueue_submission_call 3) (call stocked 10 (enqueue_marker_call 8) start)))

issues_are :
    two_issues.issue_times
    ≡ []
      ++ record { time = 90; client = 9; submission = 4 }
        ∷ record { time = 10; client = 8; submission = 3 }
        ∷ []
unfolding perform enqueue_submission enqueue_marker real_enqueue_submission real_enqueue_marker
    issue retrieve push_issue issue_lt contains empty find put
issues_are = refl

timeout_is : two_issues.timeout ≡ 60
unfolding perform enqueue_submission enqueue_marker real_enqueue_submission real_enqueue_marker
    issue retrieve contains empty find put
timeout_is = refl

check_for_timeouts_blocked_example : check_for_timeouts stocked 100 two_issues ≡ two_issues
check_for_timeouts_blocked_example =
    check_for_timeouts_blocked 60 stocked 100 two_issues []
      (record { time = 10; client = 8; submission = 3 } ∷ [])
      (record { time = 90; client = 9; submission = 4 }) two_issues-Reachable issues_are
      (omega (arith, timeout_is))

-- The server 3 has the submission 35, and the server 5 has none.
abbrev fresh : Counters
fresh = record {
  local_id = 0;
  submission = 0;
  clarification_request = 0;
  clarification = 0;
  server = 0;
  problem = 0;
}

answers_of_three : Answers 3 (some 35) (some 3)
unfolding IsOwn
answers_of_three = record { known = refl; greatest = λ m e n. ground arith }

answers_of_five : Answers 5 (some 0) (some 5)
unfolding IsOwn
answers_of_five = record { known = refl; greatest = λ m e n. ground arith }

-- The server 3 has given out a number before.
abbrev counted : Counters
counted = (allocate submission_kind (some 35) (some 3) false fresh).1

allocate-distinct_example :
    ((allocate submission_kind (some 35) (some 3) false counted).0 ≡ no_id)
    ⊎ ((allocate submission_kind (some 35) (some 3) false counted).0
        ≢ (allocate submission_kind (some 0) (some 5) false fresh).0)
allocate-distinct_example =
    allocate-distinct 3 5 submission_kind submission_kind (some 35) (some 3) (some 0) (some 5) false
      false counted fresh (omega arith) (omega arith) (omega arith) answers_of_three answers_of_five
      (allocates submission_kind (some 35) (some 3) false answers_of_three uncounted) uncounted

-- Two connections log in as the user 7, and the first one leaves.
abbrev client : ℕ → Client
client c = record { user_id = 7; group_id = 1; permissions = empty_set }

abbrev steps : List Step
steps = deregisters client 5 ∷ registers client (some 6) ∷ registers client (some 5) ∷ []

send_message-is_live_example :
    receives 6 (send_message 7 (new (codes "hello")) (after steps)).sent ≡ is_live 7 6 steps
send_message-is_live_example = send_message-is_live 7 6 (new (codes "hello")) steps
