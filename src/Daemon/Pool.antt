-- ===== src/Daemon/Pool.antt =====
-- The number of worker threads stays within its limits, and there is one for each piece of work.
use abacuscm.Prelude.{
  ℕ, zero, suc, ◌+◌, ◌-◌, ◌*◌, ◌≤◌, ◌<◌, ◌≡◌, refl, ◌⊎◌, inl, inr, Bool, true, ◌&&◌, ◌||◌, none,
  some, arith, ltb, leb, ◌==◌, if◌then◌else◌, Bool-cases, nat_order, bytes_order,
}
use abacuscm.Daemon.Workers.{
  destroy_worker, destroy_loop, process, Limits, configure, Workers, create_worker, create_loop,
}

pub record IsOrdered (l : Limits) : Type 0 where
  pub some_idle : 1 ≤ l.min_idle_workers
  pub idle_range : l.min_idle_workers < l.max_idle_workers
  pub initial_range :
      (l.min_idle_workers < l.initial_workers) × (l.initial_workers ≤ l.max_idle_workers)
  pub total_range : 2 * l.max_idle_workers ≤ l.max_total_workers

-- Whatever is configured, the limits are in order: at least one idle worker is asked for, the first
-- workers are more than these and no more than may be idle, and twice as many may exist.
pub configure-IsOrdered :
    (init max max_idle min_idle : ℕ) → IsOrdered (configure init max max_idle min_idle)
unfolding configure
configure-IsOrdered init max max_idle min_idle =
    let least : ℕ = if min_idle == 0 then 1 else min_idle in
    let most : ℕ = if leb max_idle least then least + (2 - 1) else max_idle in
    let a : 1 ≤ least = ground arith in
    let b : least < most = ground arith in
    record {
      some_idle = ground arith;
      idle_range = ground arith;
      initial_range = elim (Bool-cases (leb init least || ltb most init)) [
        | inl e ↦ rw e (omega (arith, a, b), omega (arith, a, b))
        | inr e ↦ rw e (ground arith, ground arith)
      ];
      total_range = ground arith;
    }

-- The idle workers are among all of them, and these are not too many.
pub record IsPool (l : Limits) (s : Workers) : Type 0 where
  pub le_total : s.idle_workers ≤ s.total_workers
  pub le_max : s.total_workers ≤ l.max_total_workers

-- Where threads can be created the first loop counts what is idle.
create_loop-IsPool :
    (fuel : ℕ) (creates : ℕ → Bool) (l : Limits) (idle : ℕ) (s : Workers)
    → ((i : ℕ) → creates i ≡ true)
    → idle ≡ s.idle_workers
    → IsPool l s
    → ((create_loop fuel creates l idle s).0 ≡ (create_loop fuel creates l idle s).1.idle_workers)
      × IsPool l (create_loop fuel creates l idle s).1
      × (s.idle_workers ≤ (create_loop fuel creates l idle s).1.idle_workers)
unfolding create_loop create_worker
create_loop-IsPool zero creates l idle s h e p = (e, p, omega arith)
create_loop-IsPool (suc fuel) creates l idle s h e p =
    elim (Bool-cases
      (ltb idle (l.min_idle_workers + 1) && ltb s.total_workers l.max_total_workers)) [
        | inr q ↦ rw (q, create_loop) (e, p, omega arith)
        | inl q ↦
            let t : Workers = record {
              total_workers = s.total_workers + 1;
              idle_workers = s.idle_workers + 1;
            } in
            let c : create_worker (creates idle) s ≡ t = rw (h idle) refl in
            let r : IsPool l t = record {
              le_total = omega (arith, p.le_total);
              le_max = ground arith;
            } in
            let (x, y, z) = create_loop-IsPool fuel creates l (idle + 1) t h (omega arith) r in
            rw (q, create_loop, c) (x, y, omega (arith, z))
      ]

-- With room for a thread the loop leaves an idle one.
create_loop_idle :
    (fuel : ℕ) (creates : ℕ → Bool) (l : Limits) (s : Workers)
    → ((i : ℕ) → creates i ≡ true)
    → 1 ≤ fuel
    → IsPool l s
    → (1 ≤ s.idle_workers) ⊎ (s.total_workers < l.max_total_workers)
    → 1 ≤ (create_loop fuel creates l s.idle_workers s).1.idle_workers
unfolding create_loop create_worker
create_loop_idle zero creates l s h f p c = absurd (omega arith)
create_loop_idle (suc fuel) creates l s h f p (inl c) =
    let (x, y, z) = create_loop-IsPool (suc fuel) creates l s.idle_workers s h refl p in
    omega (arith, c, z)
create_loop_idle (suc fuel) creates l s h f p (inr c) =
    elim (Bool-cases
      (ltb s.idle_workers (l.min_idle_workers + 1) && ltb s.total_workers l.max_total_workers)) [
        | inr q ↦ rw (q, create_loop) (ground arith)
        | inl q ↦
            let t : Workers = record {
              total_workers = s.total_workers + 1;
              idle_workers = s.idle_workers + 1;
            } in
            let d : create_worker (creates s.idle_workers) s ≡ t = rw (h s.idle_workers) refl in
            let r : IsPool l t = record {
              le_total = omega (arith, p.le_total);
              le_max = ground arith;
            } in
            let (x, y, z) = create_loop-IsPool fuel creates l (s.idle_workers + 1) t h refl r in
            rw (q, create_loop, d) (omega (arith, z))
      ]

-- The second loop stops at the number that may be idle.
destroy_loop-IsPool :
    (fuel : ℕ) (l : Limits) (idle : ℕ) (s : Workers)
    → 1 ≤ l.max_idle_workers
    → idle ≡ s.idle_workers
    → 1 ≤ s.idle_workers
    → IsPool l s
    → IsPool l (destroy_loop fuel l idle s) × (1 ≤ (destroy_loop fuel l idle s).idle_workers)
unfolding destroy_loop destroy_worker
destroy_loop-IsPool zero l idle s m e i p = (p, i)
destroy_loop-IsPool (suc fuel) l idle s m e i p = elim (Bool-cases (ltb l.max_idle_workers idle)) [
  | inr q ↦ rw (q, destroy_loop) (p, i)
  | inl q ↦
      let t : Workers = record {
        total_workers = s.total_workers - 1;
        idle_workers = s.idle_workers - 1;
      } in
      let r : IsPool l t = record {
        le_total = omega (arith, p.le_total);
        le_max = omega (arith, p.le_max);
      } in
      rw (q, destroy_loop)
        (destroy_loop-IsPool fuel l (idle - 1) t m (omega (arith, e)) (ground arith) r)
]

suc_cases : (n : ℕ) → 1 ≤ n → (m : ℕ) × (n ≡ suc m)
suc_cases zero h = absurd (omega arith)
suc_cases (suc m) h = (m, refl)

-- Where the limits are in order, threads can be created, and a worker is idle or may still be created,
-- `process` finds a worker for the work without waiting, and leaves no more workers than are allowed,
-- one of them at work and the idle ones among the others.
pub process-IsPool :
    (creates : ℕ → Bool) (l : Limits) (s : Workers)
    → IsOrdered l
    → ((i : ℕ) → creates i ≡ true)
    → IsPool l s
    → (1 ≤ s.idle_workers) ⊎ (s.total_workers < l.max_total_workers)
    → (t : Workers) × (process creates l s ≡ some t)
      × (t.idle_workers < t.total_workers)
      × (t.total_workers ≤ l.max_total_workers)
unfolding process
process-IsPool creates l s o h p c =
    let fuel : ℕ = l.min_idle_workers + 1 in
    let r = create_loop fuel creates l s.idle_workers s in
    let (x, y, z) = create_loop-IsPool fuel creates l s.idle_workers s h refl p in
    let i : 1 ≤ r.1.idle_workers = create_loop_idle fuel creates l s h (omega arith) p c in
    let (d, k) = destroy_loop-IsPool r.0 l r.0 r.1 (omega (arith, o.idle_range)) x i y in
    left (destroy_loop r.0 l r.0 r.1) d k
  where
    left :
        (t : Workers)
        → IsPool l t
        → 1 ≤ t.idle_workers
        → (u : Workers) × (elim t.idle_workers [
          | zero ↦ none
          | suc n ↦ some (record t { idle_workers = n })
        ]
            ≡ some u)
          × (u.idle_workers < u.total_workers)
          × (u.total_workers ≤ l.max_total_workers)
    left t q k =
        let (n, e) = suc_cases t.idle_workers k in
        (record t { idle_workers = n }, rw e refl, omega (arith, e, q.le_total), q.le_max)
