-- ===== src/ClientConnection/Chunking.antt =====
-- The blocks that a connection hands over do not depend on how the stream is cut into chunks.
use abacuscm.Prelude.{
  ◌≡◌, refl, inl, inr, Option, List, [], ◌∷◌, ◌++◌, arith, Bool-cases, length, Bytes, nat_order,
  bytes_order,
}
use mathlib.Core.List.{flatten}
use abacuscm.MessageBlock.{MessageBlock}
use abacuscm.ClientConnection.{read_loop, read_chunk, read_data}
use abacuscm.ClientConnection.Stream.{IsWaiting, continue, read_loop-append, read_loop-IsWaiting}

-- Reading the chunks one by one hands over the same blocks, leaves the same incomplete block and
-- gives the connection up in the same case as reading all their bytes as one chunk.
pub read_data-flatten :
    (m : Option MessageBlock) (chunks : List Bytes)
    → IsWaiting m
    → read_data m chunks ≡ read_chunk m (flatten chunks)
unfolding read_data read_chunk read_loop continue flatten
read_data-flatten m [] w = refl
read_data-flatten m (a ∷ chunks) w =
    let joined : read_chunk m (a ++ flatten chunks) ≡ continue (read_chunk m a) (flatten chunks) =
      read_loop-append (length a) (length (a ++ flatten chunks)) m a (flatten chunks) w
        (omega arith) (omega arith) in
    elim (Bool-cases (read_chunk m a).closed) [
      | inl o ↦ rw (joined, o, read_data, continue)
      | inr o ↦
          let ih =
            read_data-flatten (read_chunk m a).pending chunks
              (read_loop-IsWaiting (length a) m a w (omega arith) o) in
          rw (joined, o, read_data, ih, continue)
    ]
