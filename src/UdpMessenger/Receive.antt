-- ===== src/UdpMessenger/Receive.antt =====
-- `getMessage` of src/udpmessenger.C: what a frame does, and how the fragments of a message are
-- collected in whatever order they arrive. Decryption, the functors of the messages and
-- `DbCon::hasMessage` are arguments.
use abacuscm.Prelude.{
  ℕ, ◌+◌, ◌-◌, ◌%◌, ◌^◌, Bool, false, not, Option, none, some, List, [], ◌∷◌, ◌++◌, ltb, leb, ◌==◌,
  if◌then◌else◌, length, Bytes, nat_order, bytes_order, find, put, erase,
}
use abacuscm.Wire.{Load}
use abacuscm.Message.{Message, overrun, absent, built, build_blob}
use abacuscm.UdpMessenger.{Messenger, down_backoff}
use abacuscm.UdpMessenger.Frames.{
  Frame, parse_frame, checksum, st_frame_size, buffer_size, max_blocksize,
}

-- `st_fragment_collection`
pub record Collection : Type 0 where
  pub num_fragments : ℕ
  pub fragments_received : ℕ
  pub fragments : List (ℕ × Bytes)

abbrev pub empty_collection : Collection
empty_collection = record { num_fragments = 0; fragments_received = 0; fragments = [] }

-- What `getMessage` tells the rest of the program: `Server::putAck` and `sendAck`.
pub data Notice : Type 0 where
  put_ack : ℕ → ℕ → ℕ → Notice
  send_ack : ℕ → ℕ → Notice

pub record Environment {ℓ} (A : Type ℓ) : Type ℓ where
  pub decrypt : Bytes → Option Bytes
  pub checksum_seed : ℕ
  pub has_message : ℕ → ℕ → Bool
  pub functors : List (ℕ × (Bytes → Load A))

-- `notices` are in the order in which they were given.
pub record Receiver : Type 0 where
  pub messenger : Messenger
  pub fragments : List (ℕ × List (ℕ × Collection))
  pub notices : List Notice

-- What a packet leads to: the loop goes on, a message is returned, or its `load` reads too far.
pub data Step {ℓ} (A : Type ℓ) : Type ℓ where
  next : Receiver → Step A
  done : Message A → Receiver → Step A
  crashed : Step A

-- How `getMessage` ends on a sequence of packets: it waits for more, or returns a message and leaves
-- the packets behind it.
pub data Outcome {ℓ} (A : Type ℓ) : Type ℓ where
  waiting : Receiver → Outcome A
  received : Message A → Receiver → List Bytes → Outcome A
  failed : Outcome A

-- What `operator[]` gives: the value, or a new one.
unfoldable pub or_new {ℓ} : {V : Type ℓ} → V → Option V → V
or_new new none = new
or_new new (some v) = v

-- `_fragments[server]`
unfoldable pub server_fragments : ℕ → Receiver → List (ℕ × Collection)
server_fragments server s = or_new [] (find server s.fragments)

unfoldable pub collection : ℕ → ℕ → Receiver → Collection
collection server id s = or_new empty_collection (find id (server_fragments server s))

unfoldable pub put_collection : ℕ → ℕ → Collection → Receiver → Receiver
put_collection server id c s = record s {
  fragments = put server (put id c (server_fragments server s)) s.fragments;
}

unfoldable pub erase_collection : ℕ → ℕ → Receiver → Receiver
erase_collection server id s = record s {
  fragments = put server (erase id (server_fragments server s)) s.fragments;
}

unfoldable pub blob_of : List (ℕ × Bytes) → Bytes
blob_of [] = []
blob_of ((i, part) ∷ m) = part ++ blob_of m

-- `num_fragments` when the fragment `num` comes in.
unfoldable pub counted : ℕ → Bool → ℕ → ℕ
counted num lastfragment n =
    if leb n num then (num + (if lastfragment then 0 else 1)) % 2 ^ 16 else n

-- One fragment: the collection that it leaves, and whether this makes the message complete.
unfoldable pub add_fragment : ℕ → Bool → Bytes → Collection → Collection × Bool
add_fragment num lastfragment part c =
    let n : ℕ = counted num lastfragment c.num_fragments in
    elim (find num c.fragments) [
      | some old ↦ (record c { num_fragments = n }, false)
      | none ↦
          let k : ℕ = (c.fragments_received + 1) % 2 ^ 16 in
          (
            record {
              num_fragments = n;
              fragments_received = k;
              fragments = put num part c.fragments;
            },
            k == n,
          )
    ]

module _ {ℓ} {A : Type ℓ} where
  -- The message is built once all its fragments are there. They are kept where this fails.
  unfoldable pub complete : Environment A → ℕ → ℕ → Collection → Receiver → Step A
  complete env server id c s = elim (build_blob env.functors (blob_of c.fragments)) [
    | overrun ↦ crashed
    | absent ↦ next (put_collection server id c s)
    | built m ↦ done m (erase_collection server id (put_collection server id c s))
  ]

  -- The last branch, on a fragment of a message that the database does not have.
  unfoldable pub absorb : Environment A → ℕ → ℕ → ℕ → Bool → Bytes → Receiver → Step A
  absorb env server id num lastfragment part s =
      let r = add_fragment num lastfragment part (collection server id s) in
      if r.1 then complete env server id r.0 s else next (put_collection server id r.0 s)

  -- The branches for a frame of a packet of `size` bytes.
  unfoldable pub handle : Environment A → ℕ → Frame → Receiver → Step A
  handle env size f s =
      if f.fragment_num == 0
      then next (record s {
        messenger = down_backoff f.fragment_len s.messenger;
        notices = s.notices ++ put_ack f.server_id f.message_id f.fragment_len ∷ [];
      })
      else if not (size == f.fragment_len + st_frame_size - 1)
      then next s
      else if not (f.data_checksum == checksum env.checksum_seed f.payload f.fragment_len)
      then next s
      else if env.has_message f.server_id f.message_id
      then next (record s { notices = s.notices ++ send_ack f.server_id f.message_id ∷ [] })
      else absorb env f.server_id f.message_id (f.fragment_num % 2 ^ 15)
          (leb (2 ^ 15) f.fragment_num) f.payload s

  -- One turn of the loop, for what `recvfrom` gives.
  unfoldable pub receive : Environment A → Bytes → Receiver → Step A
  receive env packet s =
      if ltb (buffer_size + max_blocksize) (length packet)
      then next s
      else elim (env.decrypt packet) [
        | none ↦ next s
        | some plain ↦
            if ltb (length plain) st_frame_size
            then next s
            else elim (parse_frame plain) [ none ↦ next s | some f ↦ handle env (length plain) f s ]
      ]

  unfoldable pub get_message : Environment A → List Bytes → Receiver → Outcome A
  get_message env [] s = waiting s
  get_message env (packet ∷ packets) s = elim (receive env packet s) [
    | next t ↦ get_message env packets t
    | done m t ↦ received m t packets
    | crashed ↦ failed
  ]
