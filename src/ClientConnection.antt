-- ===== src/ClientConnection.antt =====
-- src/clientconnection.C: the blocks that a client sends over one connection. What `SSL_read` gives
-- is an argument, a chunk of bytes for each call; handling a block is `ClientAction::process`, so
-- the model lists the blocks that are handed over.
pub mod Stream
pub mod Chunking
use abacuscm.Prelude.{
  ℕ, zero, suc, ◌+◌, ◌-◌, ◌*◌, ◌/◌, ◌%◌, ◌^◌, ◌≤◌, ◌<◌, String, ◌≡◌, refl, sym, ap, ◌∙◌, subst, ◌≢◌,
  ◌↔◌, ◌⊎◌, inl, inr, Bool, true, false, not, ◌&&◌, ◌||◌, Option, none, some, List, [], ◌∷◌, ◌++◌,
  map, append-nil, append_assoc, arith, ltb, leb, ◌==◌, if◌then◌else◌, ltb→lt, lt→ltb, leb→le,
  ==_iff, ==_refl, ==_ne, Bool-cases, Option-cases, length, take, drop, length-append,
  take-length_append, take-length, take-append_ge, take-append_le, drop-length_append,
  take-append_drop, length-take, length-drop, All, All-append, Bytes, codes, eq_bytes, lt_bytes,
  Lacks, eq_bytes_refl, eq_bytes→eq, eq_bytes_iff, lt_bytes-asymm, lt_bytes_irrefl, lt_bytes_trans,
  lt_bytes-connex, StrictOrder, nat_order, bytes_order, same, find, put, erase, same_refl, same→eq,
  find-put, find-erase, Below, IsSorted, put-Below,
}
use abacuscm.MessageBlock.{MessageBlock, Outcome, failed, ret, new, add_bytes}

-- What one chunk leads to: the blocks handed over, the block that is still incomplete (`_message`),
-- and whether the connection is given up (`return -1`).
pub record Read : Type 0 where
  pub processed : List MessageBlock
  pub pending : Option MessageBlock
  pub closed : Bool

-- `if(!_message) _message = new MessageBlock;`
unfoldable pub current : Option MessageBlock → MessageBlock
unfolding new
current none = new []
current (some mb) = mb

unfoldable pub handed_over : MessageBlock → Read → Read
handed_over mb r = record r { processed = mb ∷ r.processed }

-- The inner loop of `read_data`. Each round uses at least one byte or ends the loop, so the length
-- of the chunk is fuel enough (`read_loop_fuel`).
unfoldable pub read_loop : ℕ → Option MessageBlock → Bytes → Read
read_loop fuel m [] = record { processed = []; pending = m; closed = false }
read_loop zero m (c ∷ cs) = record { processed = []; pending = m; closed = false }
read_loop (suc fuel) m (c ∷ cs) =
    let r = add_bytes (current m) (c ∷ cs) in
    elim r.0 [
      | failed ↦ record { processed = []; pending = some r.1; closed = true }
      | ret zero ↦ record { processed = []; pending = some r.1; closed = false }
      | ret (suc k) ↦ handed_over r.1 (read_loop fuel none (drop (suc k) (c ∷ cs)))
    ]

unfoldable pub read_chunk : Option MessageBlock → Bytes → Read
unfolding read_loop
read_chunk m chunk = read_loop (length chunk) m chunk

-- The outer loop: chunk after chunk, until the connection is given up.
unfoldable pub read_data : Option MessageBlock → List Bytes → Read
unfolding read_chunk
read_data m [] = record { processed = []; pending = m; closed = false }
read_data m (chunk ∷ chunks) =
    let r = read_chunk m chunk in
    elim r.closed [
      | true ↦ r
      | false ↦
          let rest = read_data r.pending chunks in
          record rest { processed = r.processed ++ rest.processed }
    ]
