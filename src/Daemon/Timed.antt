-- ===== src/Daemon/Timed.antt =====
-- `timed_actions` of src/abacusd.C: the action that is next, and a heap of those behind it. The heap
-- is the list of its actions in the order in which it gives them up: the least time first, and among
-- the same times, whose order the heap leaves open, the one that came first.
use abacuscm.Prelude.{
  ℕ, Option, none, some, List, [], ◌∷◌, ltb, leb, if◌then◌else◌, nat_order, bytes_order,
}

-- An action with its `processingTime`, and a number that tells it from the others.
pub record TimedAction : Type 0 where
  pub time : ℕ
  pub id : ℕ

pub record Schedule : Type 0 where
  pub next : Option TimedAction
  pub heap : List TimedAction

-- `push_heap` with `TimedActionPtrLessThan`.
unfoldable pub push_heap : TimedAction → List TimedAction → List TimedAction
push_heap a [] = a ∷ []
push_heap a (b ∷ heap) = if ltb a.time b.time then a ∷ b ∷ heap else b ∷ push_heap a heap

-- The inner loop at the time `now`: what is performed, and what is left.
unfoldable pub perform_loop : ℕ → TimedAction → List TimedAction → List TimedAction × Schedule
perform_loop now a [] =
    if leb a.time now
    then (a ∷ [], record { next = none; heap = [] })
    else ([], record { next = some a; heap = [] })
perform_loop now a (b ∷ heap) =
    let rest = perform_loop now b heap in
    if leb a.time now then (a ∷ rest.0, rest.1) else ([], record { next = some a; heap = b ∷ heap })

-- The same for the next action, if there is one.
unfoldable pub perform_from : ℕ → Schedule → Option TimedAction → List TimedAction × Schedule
perform_from now s none = ([], s)
perform_from now s (some a) = perform_loop now a s.heap

unfoldable pub perform_due : ℕ → Schedule → List TimedAction × Schedule
perform_due now s = perform_from now s s.next

-- An action that is dequeued.
unfoldable pub schedule : TimedAction → Schedule → Schedule
schedule a s = elim s.next [
  | none ↦ record s { next = some a }
  | some n ↦
      if ltb a.time n.time
      then record { next = some a; heap = push_heap n s.heap }
      else record s { heap = push_heap a s.heap }
]

-- The states of the loop, for whatever is queued and whenever the clock is read.
pub data Reachable : Schedule → Type 0 where
  start : Reachable (record { next = none; heap = [] })
  dequeues : {s : Schedule} (a : TimedAction) → Reachable s → Reachable (schedule a s)
  performs : {s : Schedule} (now : ℕ) → Reachable s → Reachable (perform_due now s).1
