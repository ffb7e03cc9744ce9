-- ===== src/Examples/Core.antt =====
-- The theorems on the server's state at concrete inputs, where their hypotheses hold.
use abacuscm.Prelude.{
  ℕ, ◌+◌, ◌≤◌, ◌≡◌, refl, ◌≢◌, ◌⊎◌, inl, inr, true, false, not, ◌&&◌, none, some, [], ◌∷◌, arith,
  ltb, if◌then◌else◌, codes, lt_bytes, nat_order, bytes_order, find,
}
use abacuscm.MessageBlock.{new}
use abacuscm.Markers.{
  Db, Markers, Reachable, start, call, perform, empty, enqueue_submission_call, enqueue_marker_call,
  check_for_timeouts,
}
use abacuscm.Markers.Pool.{Inv, Reachable-Inv}
use abacuscm.Markers.Conservation.{arriving, leaving, perform-held_reachable}
use abacuscm.Markers.Counts.{held}
use abacuscm.Markers.Timeouts.{top_expired, check_for_timeouts-top_expired}
use abacuscm.Permissions.{
  PermissionTest, permission, base_test, and_test, not_test, empty_set, grants, get_permissions,
  matches, invalid, get_permission_name, get_permission_value,
}
use abacuscm.Permissions.Granted.{holds, has, granted, get_permissions-granted, matches-holds}
use abacuscm.Permissions.Names.{get_permission_value-name}
use abacuscm.Server.{Counters, next_submission_id}
use abacuscm.Server.Ids.{next_submission_id_after_error}
use abacuscm.Timer.{Timer, contest_time, real, schedule_start_stop}
use abacuscm.Timer.Order.{IsOrdered, schedule_start_stop-IsOrdered}
use abacuscm.Timer.Elapsed.{IsAction, seconds, contest_time-seconds, contest_time_mono}
use abacuscm.ClientEventRegistry.{
  Client, Registry, deregister_client, is_client_registered, permits,
}
use abacuscm.ClientEventRegistry.Delivery.{deregister_client-is_client_registered}
use abacuscm.ClientAction.{process}
use abacuscm.ClientAction.Guard.{Admitted, process-Admitted}

abbrev unreachable : Db
unreachable = none

-- A marker is idle, and the database cannot be reached.
idle : Reachable 60 (perform unreachable 5 (enqueue_marker_call 8) (empty 60))
idle = call unreachable 5 (enqueue_marker_call 8) start

perform-held_reachable_example :
    held 3 (
        perform unreachable 6
          (enqueue_submission_call 3)
          (perform unreachable 5 (enqueue_marker_call 8) (empty 60)))
      + leaving
          (perform unreachable 5 (enqueue_marker_call 8) (empty 60))
          (enqueue_submission_call 3)
          3
    ≡ held 3 (perform unreachable 5 (enqueue_marker_call 8) (empty 60))
      + arriving (enqueue_submission_call 3) 3
perform-held_reachable_example =
    perform-held_reachable 60 unreachable 6 (enqueue_submission_call 3) _ 3 idle

Reachable-Inv_example : Inv (perform unreachable 5 (enqueue_marker_call 8) (empty 60))
Reachable-Inv_example = Reachable-Inv 60 _ idle

-- Marker 8 has had submission 3 since 10, and marker 9 has had submission 4 since 90.
abbrev busy : Markers
busy = record {
  issued = (8, 3) ∷ (9, 4) ∷ [];
  markers = [];
  problems = [];
  issue_times =
      record { time = 90; client = 9; submission = 4 }
      ∷ record { time = 10; client = 8; submission = 3 }
      ∷ [];
  timeout = 60;
  sent = [];
}

check_for_timeouts-top_expired_example :
    top_expired 200 60 (check_for_timeouts unreachable 200 busy).issue_times ≡ false
check_for_timeouts-top_expired_example = check_for_timeouts-top_expired unreachable 200 busy

get_permissions-granted_example : has (get_permissions 4) 16 ≡ granted grants 4 16
get_permissions-granted_example = get_permissions-granted 4 16 (omega arith)

abbrev sees_contest : PermissionTest
sees_contest = and_test (base_test (permission 6)) (not_test (base_test (permission 8)))

matches-holds_example : matches sees_contest empty_set ≡ some (holds sees_contest (has empty_set))
matches-holds_example = matches-holds sees_contest empty_set refl (omega arith, omega arith)

get_permission_value-name_example :
    ((get_permission_value (codes "mark") ≡ invalid)
      × ((i : ℕ) → get_permission_name (permission i) ≢ some (codes "mark")))
    ⊎ (get_permission_name (get_permission_value (codes "mark")) ≡ some (codes "mark"))
get_permission_value-name_example = get_permission_value-name (codes "mark")

abbrev fresh : Counters
fresh = record {
  local_id = 0;
  submission = 0;
  clarification_request = 0;
  clarification = 0;
  server = 0;
  problem = 0;
}

next_submission_id_after_error_example :
    (next_submission_id (some 35) (some 3) false (next_submission_id (some 0) none false fresh).1).0
    ≡ 15
next_submission_id_after_error_example =
    next_submission_id_after_error (some 35) (some 3) false false fresh refl refl

-- A contest of 100 seconds that starts at 10, stops at 20 and starts again at 30.
abbrev pub contest : Timer
contest = record {
  evlist =
      record { time = 10; group_id = 0; action = 1 }
      ∷ record { time = 20; group_id = 2; action = 2 }
      ∷ record { time = 30; group_id = 0; action = 1 }
      ∷ [];
  duration = 100;
  blinds = 30;
  group_state = [];
}

pub ordered : IsOrdered contest.evlist
ordered = ((omega arith, (omega arith, tt)), ((omega arith, tt), (tt, tt)))

pub actions : IsAction contest.evlist
actions = (inl refl, (inr refl, (inl refl, tt)))

contest_time-seconds_example : contest_time contest 40 2 0 ≡ (
    if ltb 100 (seconds 2 contest.evlist (real 40 0))
    then 100
    else seconds 2 contest.evlist (real 40 0))
contest_time-seconds_example = contest_time-seconds contest 40 2 0 ordered actions

contest_time_mono_example :
    (contest_time contest 40 2 15 ≤ contest_time contest 40 2 (15 + 20))
    × (contest_time contest 40 2 (15 + 20) ≤ contest_time contest 40 2 15 + 20)
contest_time_mono_example = contest_time_mono contest 40 2 15 20 ordered actions (omega arith)

schedule_start_stop-IsOrdered_example :
    IsOrdered (schedule_start_stop (some true) contest 0 25 2).1.evlist
schedule_start_stop-IsOrdered_example =
    schedule_start_stop-IsOrdered (some true) contest 0 25 2 ordered

abbrev client : ℕ → Client
client cc = record { user_id = cc; group_id = 1; permissions = empty_set }

-- Connection 5 is in an event whose test it does not pass.
abbrev registry : Registry
registry = record {
  eventmap = (codes "balloon", record { pool = 5 ∷ []; test = base_test (permission 6) }) ∷ [];
  clients = (5, 5) ∷ [];
  sent = [];
}

registered :
    find (codes "balloon") registry.eventmap
    ≡ some (record { pool = 5 ∷ []; test = base_test (permission 6) })
unfolding find lt_bytes
registered = refl

deregister_client-is_client_registered_example :
    is_client_registered (codes "balloon") 5 (deregister_client client 5 registry) ≡ (
      is_client_registered (codes "balloon") 5 registry
      && not (permits (base_test (permission 6)) (client 5)))
deregister_client-is_client_registered_example =
    deregister_client-is_client_registered client 5 (codes "balloon") registry
      (record { pool = 5 ∷ []; test = base_test (permission 6) }) registered

process-Admitted_example :
    (Admitted ℕ 1 empty_set [] (new (codes "auth")))
    ⊎ (((process ℕ 1 empty_set [] 5 (new (codes "auth")) 0).1 ≡ 0)
        × ((process ℕ 1 empty_set [] 5 (new (codes "auth")) 0).0.message ≡ codes "err")
        × ((process ℕ 1 empty_set [] 5 (new (codes "auth")) 0).0.message_id
            ≡ (new (codes "auth")).message_id))
process-Admitted_example = process-Admitted ℕ 1 empty_set [] 5 (new (codes "auth")) 0
