-- ===== src/Timer.antt =====
-- src/support_timer.C and include/timersupportmodule.h: when the contest runs for a group, and how
-- much of it has gone by. Times are seconds and never negative. `_evlist` is in the order of time
-- (`schedule_start_stop-IsOrdered`), so no subtraction of times goes below 0. `now` stands for
-- `time(NULL)`, and the database's answer is an argument of the calls that ask it.
pub mod Order
pub mod Elapsed
pub mod EndTime
use abacuscm.Prelude.{
  ℕ, zero, suc, ◌+◌, ◌-◌, ◌*◌, ◌/◌, ◌%◌, ◌^◌, ◌≤◌, ◌<◌, String, ◌≡◌, refl, sym, ap, ◌∙◌, subst, ◌≢◌,
  ◌↔◌, ◌⊎◌, inl, inr, Bool, true, false, not, ◌&&◌, ◌||◌, Option, none, some, List, [], ◌∷◌, ◌++◌,
  map, append-nil, append_assoc, arith, ltb, leb, ◌==◌, if◌then◌else◌, ltb→lt, lt→ltb, leb→le,
  ==_iff, ==_refl, ==_ne, Bool-cases, Option-cases, length, take, drop, length-append,
  take-length_append, take-length, take-append_ge, take-append_le, drop-length_append,
  take-append_drop, length-take, length-drop, All, All-append, list-cases, Bytes, codes, eq_bytes,
  lt_bytes, Lacks, eq_bytes_refl, eq_bytes→eq, eq_bytes_iff, lt_bytes-asymm, lt_bytes_irrefl,
  lt_bytes_trans, lt_bytes-connex, StrictOrder, nat_order, bytes_order, same, find, put, erase,
  same_refl, same→eq, find-put, find-erase, Below, IsSorted, put-Below, put-IsSorted,
  erase-IsSorted,
}

abbrev pub timer_status_started : ℕ
timer_status_started = 1

abbrev pub timer_status_stopped : ℕ
timer_status_stopped = 2

pub record Event : Type 0 where
  pub time : ℕ
  pub group_id : ℕ
  pub action : ℕ

pub record Timer : Type 0 where
  pub evlist : List Event
  pub duration : ℕ
  pub blinds : ℕ
  pub group_state : List (ℕ × ℕ)

-- The local variables of the loop of `contestTime`.
pub record Clock : Type 0 where
  pub status : ℕ
  pub elapsed : ℕ
  pub last_start : ℕ

-- `!i->group_id || i->group_id == group_id`
unfoldable pub concerns : ℕ → Event → Bool
concerns group e = (e.group_id == 0) || (e.group_id == group)

-- One round of that loop.
unfoldable pub tick : ℕ → Event → Clock → Clock
tick group e c =
    if not (concerns group e) || (e.action == c.status)
    then c
    else if e.action == timer_status_started
    then record { status = e.action; elapsed = c.elapsed; last_start = e.time }
    else record {
      status = e.action;
      elapsed = c.elapsed + (e.time - c.last_start);
      last_start = c.last_start;
    }

unfoldable pub clock_loop : ℕ → ℕ → List Event → Clock → Clock
clock_loop group t [] c = c
clock_loop group t (e ∷ es) c =
    let rest : Clock = clock_loop group t es (tick group e c) in if leb e.time t then rest else c

-- What follows the loop, in front of the comparison with the duration.
unfoldable pub total : ℕ → Clock → ℕ
total t c = if c.status == timer_status_started then c.elapsed + (t - c.last_start) else c.elapsed

abbrev pub stopped_clock : Clock
stopped_clock = record { status = timer_status_stopped; elapsed = 0; last_start = 0 }

-- `if(!real_time) real_time = time(NULL);`
unfoldable pub real : ℕ → ℕ → ℕ
real now t = if t == 0 then now else t

unfoldable pub contest_time : Timer → ℕ → ℕ → ℕ → ℕ
contest_time s now group real_time =
    let t : ℕ = real now real_time in
    let elapsed : ℕ = total t (clock_loop group t s.evlist stopped_clock) in
    if ltb s.duration elapsed then s.duration else elapsed

-- The loop of `contestStatus`.
unfoldable pub status_loop : ℕ → ℕ → List Event → ℕ → ℕ
status_loop group t [] status = status
status_loop group t (e ∷ es) status =
    let rest : ℕ = status_loop group t es (if concerns group e then e.action else status) in
    if leb e.time t then rest else status

unfoldable pub contest_status : Timer → ℕ → ℕ → ℕ → ℕ
contest_status s now group real_time =
    let t : ℕ = real now real_time in
    if leb s.duration (contest_time s now group t)
    then timer_status_stopped
    else status_loop group t s.evlist timer_status_stopped

-- The insertion of `scheduleStartStop`: in front of the first event that is not earlier.
unfoldable pub insert : Event → List Event → List Event
insert t [] = t ∷ []
insert t (e ∷ es) = if ltb e.time t.time then e ∷ insert t es else t ∷ e ∷ es

-- `stored` is `none` where the database cannot be reached, and else whether the query succeeds.
unfoldable pub schedule_start_stop : Option Bool → Timer → ℕ → ℕ → ℕ → Bool × Timer
schedule_start_stop stored s group time action = elim stored [
  | none ↦ (false, s)
  | some false ↦ (false, s)
  | some true ↦ (
    true,
    record s {
      evlist = insert (record { time = time; group_id = group; action = action }) s.evlist;
    },
  )
]

-- `contest_time > contestDuration() - contestBlindsDuration()` on signed numbers.
unfoldable pub is_blinded : Timer → ℕ → Bool
is_blinded s t = ltb s.duration (t + s.blinds)

-- The new timer with `old_state` and `new_state`.
unfoldable pub update_group_state : Timer → ℕ → ℕ → ℕ → Timer × (ℕ × ℕ)
update_group_state s now group t =
    let known : List (ℕ × ℕ) = elim (find group s.group_state) [
      | none ↦ put group timer_status_stopped s.group_state
      | some x ↦ s.group_state
    ] in
    let old_state : ℕ = elim (find group known) [ none ↦ 0 | some x ↦ x ] in
    let new_state : ℕ = contest_status s now group t in
    (
      record s {
        group_state = if new_state == old_state then known else put group new_state known;
      },
      (old_state, new_state),
    )

-- The settings that `init` reads, after its corrections.
unfoldable pub clamp_duration : ℕ → ℕ
clamp_duration d = if d == 0 then 5 * 3600 else d

unfoldable pub clamp_blinds : ℕ → ℕ → ℕ
clamp_blinds d b = if ltb d b then d else b

-- `init` puts each row in front: the rows come latest first.
unfoldable pub load_events : List Event → List Event → List Event
load_events [] evs = evs
load_events (r ∷ rows) evs = load_events rows (r ∷ evs)

unfoldable pub init : ℕ → ℕ → Option (List Event) → Timer
init d b rows = record {
  evlist = elim rows [ none ↦ [] | some r ↦ load_events r [] ];
  duration = clamp_duration d;
  blinds = clamp_blinds (clamp_duration d) b;
  group_state = [];
}

-- The loop of `contestEndTime` and what follows it; 0 where the contest does not end.
unfoldable pub end_loop : ℕ → List Event → ℕ → ℕ → ℕ → ℕ
end_loop group [] status remaining last_start =
    if status == timer_status_started then last_start + remaining else 0
end_loop group (e ∷ es) status remaining last_start =
    let same_status : ℕ = end_loop group es status remaining last_start in
    let started : ℕ = end_loop group es e.action remaining e.time in
    let stopped : ℕ = end_loop group es e.action (remaining - (e.time - last_start)) last_start in
    if not (concerns group e) || (e.action == status)
    then same_status
    else if e.action == timer_status_started
    then started
    else if ltb remaining (e.time - last_start)
    then last_start + remaining
    else stopped

unfoldable pub contest_end_time : Timer → ℕ → ℕ
contest_end_time s group = end_loop group s.evlist timer_status_stopped s.duration 0
