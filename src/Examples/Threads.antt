-- ===== src/Examples/Threads.antt =====
-- The theorems on the threads of the daemon at concrete inputs, where their hypotheses hold.
use abacuscm.Prelude.{
  ◌≤◌, ◌<◌, ◌≡◌, refl, inr, Bool, true, false, ◌&&◌, none, some, [], arith, if◌then◌else◌,
  nat_order, bytes_order,
}
use abacuscm.Daemon.Peers.{
  Key, Node, peer_listener, message_handler, restart, Reachable, start, listens, handles, restarts,
}
use abacuscm.Daemon.Occurrences.{occurrences, total, pending}
use abacuscm.Daemon.Once.{known, Reachable-once}
use abacuscm.Daemon.Workers.{Limits, Workers, process}
use abacuscm.Daemon.Timed.{Schedule, schedule, perform_due, start as stopped, dequeues}
use abacuscm.Daemon.Due.{waiting, Ascends, IsPerformed, Reachable-IsPerformed}
use abacuscm.Daemon.Pool.{IsOrdered, process-IsPool}

-- A message comes in twice, its handler fails, and the server is started again, when its row can be
-- fetched and built.
abbrev every : Key → Bool
every k = true

abbrev arrivals : Node
arrivals = restart every every (
    message_handler false (
      peer_listener true true (2, 7)
        (peer_listener true true (2, 7)
          (record { rows = []; queue = []; failed = []; left_out = []; acked = [] }))))

arrivals-Reachable : Reachable arrivals
arrivals-Reachable =
    restarts every every (handles false (listens true true (2, 7) (listens true true (2, 7) start)))

Reachable-once_example :
    (total (2, 7) arrivals.rows ≤ 1)
    × (pending (2, 7) arrivals.rows ≤ total (2, 7) arrivals.rows)
    × (known (2, 7) arrivals ≡ pending (2, 7) arrivals.rows)
    × (occurrences (2, 7) (restart every every arrivals).queue
        ≡ (if every (2, 7) && every (2, 7) then pending (2, 7) arrivals.rows else 0))
Reachable-once_example = Reachable-once arrivals (2, 7) every every arrivals-Reachable

abbrev limits : Limits
limits = record {
  initial_workers = 2;
  min_idle_workers = 1;
  max_idle_workers = 2;
  max_total_workers = 4;
}

limits-IsOrdered : IsOrdered limits
limits-IsOrdered = record {
  some_idle = omega arith;
  idle_range = omega arith;
  initial_range = (omega arith, omega arith);
  total_range = omega arith;
}

abbrev workers : Workers
workers = record { total_workers = 3; idle_workers = 0 }

process-IsPool_example :
    (t : Workers) × (process (λ i. true) limits workers ≡ some t)
    × (t.idle_workers < t.total_workers)
    × (t.total_workers ≤ 4)
process-IsPool_example =
    process-IsPool (λ i. true) limits workers limits-IsOrdered (λ i. refl)
      (record { le_total = omega arith; le_max = omega arith }) (inr (omega arith))

-- Two actions, of which the later one comes first.
abbrev planned : Schedule
planned =
    schedule (record { time = 10; id = 2 })
      (schedule (record { time = 20; id = 1 }) (record { next = none; heap = [] }))

Reachable-IsPerformed_example :
    Ascends (waiting planned)
    × IsPerformed 15 (waiting planned) (perform_due 15 planned).0 (perform_due 15 planned).1
Reachable-IsPerformed_example =
    Reachable-IsPerformed 15 planned
      (dequeues (record { time = 10; id = 2 }) (dequeues (record { time = 20; id = 1 }) stopped))
