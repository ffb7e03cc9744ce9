-- ===== src/Daemon/Once.antt =====
-- Each message is queued at most once, and what becomes of it.
use abacuscm.Prelude.{
  ℕ, ◌+◌, ◌≤◌, ◌≡◌, refl, sym, ap, ◌∙◌, inl, inr, Bool, true, false, not, ◌&&◌, ◌||◌, List, [], ◌∷◌,
  ◌++◌, arith, if◌then◌else◌, Bool-cases, list-cases, nat_order, bytes_order,
}
use abacuscm.Daemon.Peers.{
  Key, eq_key, Node, has_row, insert_row, unprocessed, enqueue, leave_out, peer_listener, trigger,
  message_handler, restart, Reachable, start, listens, triggers, handles, restarts,
}
use abacuscm.Daemon.Occurrences.{
  hit, occurrences, total, pending, eq_key→eq, occurrences-append, occurrences-unprocessed,
  total-mark_processed, pending_le, pending-mark_processed, total-has_row, occurrences-get_messages,
}

-- The messages that the server knows of as not processed.
unfoldable pub known : Key → Node → ℕ
known k s = occurrences k s.queue + occurrences k s.failed + occurrences k s.left_out

-- The keys of the table are its primary key, and what is not processed is queued, has failed, or was
-- left out.
pub record IsConsistent (s : Node) : Type 0 where
  pub unique : (k : Key) → total k s.rows ≤ 1
  pub accounted : (k : Key) → pending k s.rows ≡ known k s

-- A table that has one row more, which is not processed.
insert_row-IsConsistent :
    (j : Key) (s t : Node)
    → IsConsistent s
    → has_row j s.rows ≡ false
    → t.rows ≡ (j, false) ∷ s.rows
    → ((k : Key) → known k t ≡ hit j k + known k s)
    → IsConsistent t
unfolding total pending
insert_row-IsConsistent j s t c h e g = record {
  unique = λ k. elim (Bool-cases (eq_key j k)) [
    | inl q ↦
        let z : total k s.rows ≡ 0 =
          ap (λ x. total x s.rows) (sym (eq_key→eq j k q)) ∙ total-has_row j s.rows h in
        rw e (ground (arith, q, z))
    | inr q ↦ rw e (ground (arith, q, c.unique k))
  ];
  accounted = λ k.
      let p : pending k t.rows ≡ hit j k + pending k s.rows = ap (pending k) e in
      omega (arith, p, c.accounted k, g k);
}

enqueue-IsConsistent : (j : Key) (s : Node) → IsConsistent s → IsConsistent (enqueue j s)
unfolding enqueue insert_row occurrences known
enqueue-IsConsistent j s c = elim (Bool-cases (has_row j s.rows)) [
  | inl h ↦ rw (h, enqueue, insert_row) c
  | inr h ↦
      rw (h, enqueue, insert_row)
        (insert_row-IsConsistent j s
          (record s { rows = (j, false) ∷ s.rows; queue = s.queue ++ j ∷ [] }) c h refl
          (λ k. omega (arith, occurrences-append k s.queue (j ∷ []))))
]

leave_out-IsConsistent : (j : Key) (s : Node) → IsConsistent s → IsConsistent (leave_out j s)
unfolding leave_out insert_row occurrences known
leave_out-IsConsistent j s c = elim (Bool-cases (has_row j s.rows)) [
  | inl h ↦ rw (h, leave_out, insert_row) c
  | inr h ↦
      rw (h, leave_out, insert_row)
        (insert_row-IsConsistent j s
          (record s { rows = (j, false) ∷ s.rows; left_out = j ∷ s.left_out }) c h refl
          (λ k. omega arith))
]

trigger-IsConsistent :
    (read stored made : Bool) (own : ℕ) (s : Node)
    → IsConsistent s
    → IsConsistent (trigger read stored made own s)
unfolding trigger
trigger-IsConsistent read false made own s c = c
trigger-IsConsistent read true true own s c = enqueue-IsConsistent _ s c
trigger-IsConsistent read true false own s c = leave_out-IsConsistent _ s c

peer_listener-IsConsistent :
    (connected stored : Bool) (k : Key) (s : Node)
    → IsConsistent s
    → IsConsistent (peer_listener connected stored k s)
unfolding peer_listener known
peer_listener-IsConsistent connected stored k s c =
    let d : IsConsistent (enqueue k s) = enqueue-IsConsistent k s c in
    elim (Bool-cases (not connected || not stored || has_row k s.rows)) [
      | inl e ↦ rw (e, peer_listener) c
      | inr e ↦ rw (e, peer_listener) (record { unique = d.unique; accounted = d.accounted })
    ]

known-head :
    (k : Key) (s : Node) (j : Key) (rest : List Key)
    → s.queue ≡ j ∷ rest
    → known k s ≡ hit j k + occurrences k rest + occurrences k s.failed + occurrences k s.left_out
unfolding known occurrences
known-head k s j rest e =
    ap (λ q. occurrences k q + occurrences k s.failed + occurrences k s.left_out) e

-- A message at the head of the queue is marked, or has failed.
handled-IsConsistent :
    (marked : Bool) (s : Node) (j : Key) (rest : List Key)
    → IsConsistent s
    → s.queue ≡ j ∷ rest
    → IsConsistent (message_handler marked s)
unfolding message_handler occurrences known
handled-IsConsistent true s j rest c e =
    rw (e, message_handler)
      (record {
        unique = λ k. omega (arith, total-mark_processed j k s.rows, c.unique k);
        accounted = λ k.
            let p : pending k s.rows ≤ total k s.rows = pending_le k s.rows in
            let a = c.accounted k ∙ known-head k s j rest e in
            ground (arith, a, p, c.unique k, pending-mark_processed j k s.rows);
      })
handled-IsConsistent false s j rest c e =
    rw (e, message_handler)
      (record {
        unique = c.unique;
        accounted = λ k. omega (arith, c.accounted k ∙ known-head k s j rest e);
      })

message_handler-IsConsistent :
    (marked : Bool) (s : Node) → IsConsistent s → IsConsistent (message_handler marked s)
unfolding message_handler
message_handler-IsConsistent marked s c = elim (list-cases s.queue) [
  | inl e ↦ rw (e, message_handler) c
  | inr (j, rest, e) ↦ handled-IsConsistent marked s j rest c e
]

restart-IsConsistent :
    (fetched builds : Key → Bool) (s : Node)
    → IsConsistent s
    → IsConsistent (restart fetched builds s)
unfolding restart occurrences known
restart-IsConsistent fetched builds s c = record {
  unique = c.unique;
  accounted = λ k.
      let (p, q) = occurrences-get_messages fetched builds k (unprocessed s.rows) in
      ground (arith, occurrences-unprocessed k s.rows, p, q);
}

-- What a start queues of a message.
restart-queue :
    (fetched builds : Key → Bool) (s : Node) (k : Key)
    → occurrences k (restart fetched builds s).queue
      ≡ (if fetched k && builds k then pending k s.rows else 0)
unfolding restart
restart-queue fetched builds s k =
    let (p, q) = occurrences-get_messages fetched builds k (unprocessed s.rows) in
    ground (arith, occurrences-unprocessed k s.rows, p)

Reachable-IsConsistent : (s : Node) → Reachable s → IsConsistent s
unfolding total pending occurrences known
Reachable-IsConsistent _ start = record { unique = λ k. omega arith; accounted = λ k. refl }
Reachable-IsConsistent _ (listens {s} connected stored k r) =
    peer_listener-IsConsistent connected stored k s (Reachable-IsConsistent s r)
Reachable-IsConsistent _ (triggers {s} read stored made own r) =
    trigger-IsConsistent read stored made own s (Reachable-IsConsistent s r)
Reachable-IsConsistent _ (handles {s} marked r) =
    message_handler-IsConsistent marked s (Reachable-IsConsistent s r)
Reachable-IsConsistent _ (restarts {s} fetched builds r) =
    restart-IsConsistent fetched builds s (Reachable-IsConsistent s r)

-- In every state that a server reaches, however messages arrive, queries fail and handlers end, and
-- over restarts: no two rows of the table are of the same message; a message is at most once in all
-- of the queue, those that have failed and those that an error has left out, and it is in one of them
-- if and only if its row is not marked as processed; and a start queues such a message, once, if its
-- row can be fetched and built, and not otherwise.
pub Reachable-once :
    (s : Node) (k : Key) (fetched builds : Key → Bool)
    → Reachable s
    → (total k s.rows ≤ 1)
      × (pending k s.rows ≤ total k s.rows)
      × (known k s ≡ pending k s.rows)
      × (occurrences k (restart fetched builds s).queue
          ≡ (if fetched k && builds k then pending k s.rows else 0))
Reachable-once s k fetched builds r =
    let c : IsConsistent s = Reachable-IsConsistent s r in
    (c.unique k, pending_le k s.rows, sym (c.accounted k), restart-queue fetched builds s k)
