-- ===== src/Daemon/Peers.antt =====
-- `peer_listener`, `message_handler` and the queue that `initialise` fills in src/abacusd.C, with what
-- they do to the table `PeerMessage` in src/dbmysql.C: its primary key is the number of the server and
-- that of the message. What a message contains is left out, and with it the order in which a start
-- queues the rows. The three messages of the first start are triggered like others.
use abacuscm.Prelude.{
  ℕ, ◌+◌, ◌%◌, ◌^◌, Bool, true, false, not, ◌&&◌, ◌||◌, Option, none, some, List, [], ◌∷◌, ◌++◌,
  ltb, ◌==◌, if◌then◌else◌, nat_order, bytes_order,
}

abbrev pub Key : Type 0
Key = ℕ × ℕ

unfoldable pub eq_key : Key → Key → Bool
eq_key (a, b) (c, d) = (a == c) && (b == d)

-- A row: its key and the column `processed`.
abbrev pub Row : Type 0
Row = Key × Bool

-- The table, the message queue, the messages that were handled without being marked as processed
-- since the last start, those that an error has kept out of the queue since then, and those for which
-- `sendAck` was called.
pub record Node : Type 0 where
  pub rows : List Row
  pub queue : List Key
  pub failed : List Key
  pub left_out : List Key
  pub acked : List Key

unfoldable pub has_row : Key → List Row → Bool
has_row k [] = false
has_row k ((j, p) ∷ rows) = eq_key j k || has_row k rows

-- `INSERT INTO PeerMessage`: `none` where the primary key is there already.
unfoldable pub insert_row : Key → List Row → Option (List Row)
insert_row k rows = if has_row k rows then none else some ((k, false) ∷ rows)

-- `SELECT MAX(message_id) FROM PeerMessage WHERE server_id=`, 0 where there is none.
unfoldable pub max_message_id : ℕ → List Row → ℕ
max_message_id own [] = 0
max_message_id own (((server, id), p) ∷ rows) =
    let rest : ℕ = max_message_id own rows in if (server == own) && ltb rest id then id else rest

-- `markProcessed`
unfoldable pub mark_processed : Key → List Row → List Row
mark_processed k [] = []
mark_processed k ((j, p) ∷ rows) = (j, if eq_key j k then true else p) ∷ mark_processed k rows

-- The rows that the query of `getUnprocessedMessages` asks for.
unfoldable pub unprocessed : List Row → List Key
unprocessed [] = []
unprocessed ((k, p) ∷ rows) = if p then unprocessed rows else k ∷ unprocessed rows

-- `getMessages`: `fetched` is false of all rows where the query fails, and of the rest where fetching
-- ends early; `builds` is whether `buildMessage` accepts the row. The second list has the rows that
-- are not returned.
unfoldable pub get_messages : (Key → Bool) → (Key → Bool) → List Key → List Key × List Key
get_messages fetched builds [] = ([], [])
get_messages fetched builds (k ∷ keys) =
    let r = get_messages fetched builds keys in
    if fetched k && builds k then (k ∷ r.0, r.1) else (r.0, k ∷ r.1)

-- Puts a message into the table and, where that succeeds, into the queue.
unfoldable pub enqueue : Key → Node → Node
enqueue k s = elim (insert_row k s.rows) [
  | none ↦ s
  | some rows ↦ record s { rows = rows; queue = s.queue ++ k ∷ [] }
]

-- A turn of `peer_listener` on the message that `getMessage` returned: one that the table has already
-- is neither queued nor acknowledged. `connected` is whether there is a database, and `stored` whether
-- the query succeeds but for the primary key.
unfoldable pub peer_listener : Bool → Bool → Key → Node → Node
peer_listener connected stored k s =
    if not connected || not stored || has_row k s.rows
    then s
    else record (enqueue k s) { acked = s.acked ++ k ∷ [] }

-- The table after the INSERT, where an exception keeps the message out of the queue.
unfoldable pub leave_out : Key → Node → Node
leave_out k s = elim (insert_row k s.rows) [
  | none ↦ s
  | some rows ↦ record s { rows = rows; left_out = k ∷ s.left_out }
]

-- `makeMessage` and the queueing in `triggerMessage`. `read` is whether `putLocalMessage` gets a result
-- for the greatest number, `stored` whether its other queries succeed but for the primary key, and
-- `made` whether `makeMessage` ends without an exception after that.
unfoldable pub trigger : Bool → Bool → Bool → ℕ → Node → Node
trigger read stored made own s =
    let k : Key = (own, ((if read then max_message_id own s.rows else 0) + 1) % 2 ^ 32) in
    if not stored then s else if made then enqueue k s else leave_out k s

-- A turn of `message_handler`; `marked` is whether `process` succeeded and marked the message.
unfoldable pub message_handler : Bool → Node → Node
message_handler marked s = elim s.queue [
  | [] ↦ s
  | k ∷ rest ↦
      if marked
      then record s { rows = mark_processed k s.rows; queue = rest }
      else record s { queue = rest; failed = k ∷ s.failed }
]

-- The server is stopped, and `initialise` fills the queue from the table.
unfoldable pub restart : (Key → Bool) → (Key → Bool) → Node → Node
restart fetched builds s =
    let r = get_messages fetched builds (unprocessed s.rows) in
    record s { queue = r.0; failed = []; left_out = r.1 }

-- The states that a server goes through, whatever comes in, whatever the database does and however
-- its handlers end.
pub data Reachable : Node → Type 0 where
  start : Reachable (record { rows = []; queue = []; failed = []; left_out = []; acked = [] })
  listens :
      {s : Node} (connected stored : Bool) (k : Key)
      → Reachable s
      → Reachable (peer_listener connected stored k s)
  triggers :
      {s : Node} (read stored made : Bool) (own : ℕ)
      → Reachable s
      → Reachable (trigger read stored made own s)
  handles : {s : Node} (marked : Bool) → Reachable s → Reachable (message_handler marked s)
  restarts :
      {s : Node} (fetched builds : Key → Bool) → Reachable s → Reachable (restart fetched builds s)
