-- ===== src/Daemon/Workers.antt =====
-- `ThreadedWaitableSet` of src/abacusd.C: how many worker threads there are. The configured numbers
-- are not negative; `pthread_create` succeeds or fails as the list of results says, and a worker that
-- is joined has ended.
use abacuscm.Prelude.{
  ℕ, zero, suc, ◌+◌, ◌-◌, ◌*◌, ◌/◌, Bool, ◌&&◌, ◌||◌, Option, none, some, ltb, leb, ◌==◌,
  if◌then◌else◌, nat_order, bytes_order,
}

abbrev pub default_min_idle_workers : ℕ
default_min_idle_workers = 1

abbrev pub default_max_idle_workers : ℕ
default_max_idle_workers = 2

abbrev pub min_max_total_workers : ℕ
min_max_total_workers = 2

pub record Limits : Type 0 where
  pub initial_workers : ℕ
  pub min_idle_workers : ℕ
  pub max_idle_workers : ℕ
  pub max_total_workers : ℕ

-- The corrections of `configure`, in its order.
unfoldable pub configure : ℕ → ℕ → ℕ → ℕ → Limits
configure init max max_idle min_idle =
    let total : ℕ = if ltb max min_max_total_workers then min_max_total_workers else max in
    let least : ℕ = if min_idle == 0 then default_min_idle_workers else min_idle in
    let most : ℕ =
      if leb max_idle least
      then least + (default_max_idle_workers - default_min_idle_workers)
      else max_idle in
    record {
      initial_workers = if leb init least || ltb most init then (least + most + 1) / 2 else init;
      min_idle_workers = least;
      max_idle_workers = most;
      max_total_workers = if ltb total (2 * most) then 2 * most else total;
    }

-- `_total_workers` and the length of `_idle_workers`.
pub record Workers : Type 0 where
  pub total_workers : ℕ
  pub idle_workers : ℕ

unfoldable pub create_worker : Bool → Workers → Workers
create_worker created s =
    if created
    then record { total_workers = s.total_workers + 1; idle_workers = s.idle_workers + 1 }
    else s

-- `destroy_worker`, for a state with an idle worker.
unfoldable pub destroy_worker : Workers → Workers
destroy_worker s = record { total_workers = s.total_workers - 1; idle_workers = s.idle_workers - 1 }

-- The first loop of `process`, with its own count `idle` of idle workers, which goes up even where no
-- thread is created; so `min_idle_workers + 1` rounds are enough.
unfoldable pub create_loop : ℕ → (ℕ → Bool) → Limits → ℕ → Workers → ℕ × Workers
create_loop zero creates l idle s = (idle, s)
create_loop (suc fuel) creates l idle s =
    let rest = create_loop fuel creates l (idle + 1) (create_worker (creates idle) s) in
    if ltb idle (l.min_idle_workers + 1) && ltb s.total_workers l.max_total_workers
    then rest
    else (idle, s)

-- The second loop, which runs as often as there are idle workers at most.
unfoldable pub destroy_loop : ℕ → Limits → ℕ → Workers → Workers
destroy_loop zero l idle s = s
destroy_loop (suc fuel) l idle s =
    let rest = destroy_loop fuel l (idle - 1) (destroy_worker s) in
    if ltb l.max_idle_workers idle then rest else s

-- `process` up to the worker that gets the work: `none` where it waits for one to become idle.
unfoldable pub process : (ℕ → Bool) → Limits → Workers → Option Workers
process creates l s =
    let r = create_loop (l.min_idle_workers + 1) creates l s.idle_workers s in
    let t : Workers = destroy_loop r.0 l r.0 r.1 in
    elim (t.idle_workers) [ zero ↦ none | suc n ↦ some (record t { idle_workers = n }) ]

-- `worker_idle`
unfoldable pub worker_idle : Workers → Workers
worker_idle s = record s { idle_workers = s.idle_workers + 1 }
