-- ===== src/UdpMessenger/Frames.antt =====
-- `st_frame` and its bytes in src/udpmessenger.C, the checksum, and the frames that `sendMessage` and
-- `sendAck` send. Encryption is the function `encrypt`, which is `none` where OpenSSL fails; the
-- shuffle of the fragments is a list of their numbers, and `sendto` sends every frame.
use abacuscm.Prelude.{
  ℕ, zero, suc, ◌+◌, ◌-◌, ◌*◌, ◌/◌, ◌%◌, ◌^◌, Bool, true, false, not, ◌||◌, Option, none, some,
  List, [], ◌∷◌, ◌++◌, ltb, leb, ◌==◌, if◌then◌else◌, ◌>>=◌, length, take, Bytes, nat_order,
  bytes_order,
}
use Prim.Native.Nat.{bit_xor}
use abacuscm.Wire.{put_word}
use abacuscm.Message.{word}
use abacuscm.UdpMessenger.{Messenger, get_backoff, num_fragments, fragment, fragment_length}

-- `ST_FRAME_SIZE`, one byte of data included.
abbrev pub st_frame_size : ℕ
st_frame_size = 19

-- `BUFFER_SIZE` and `MAX_BLOCKSIZE`
abbrev pub buffer_size : ℕ
buffer_size = 1408

abbrev pub max_blocksize : ℕ
max_blocksize = 32

-- `MIN_FRAGMENT_SIZE` and `MAX_FRAGMENT_SIZE`
abbrev pub min_fragment_size : ℕ
min_fragment_size = 200

abbrev pub max_fragment_size : ℕ
max_fragment_size = 1390

-- The corrections of `maxfragmentsize` in `initialise`: `_max_fragment_size` is a `uint16_t`.
unfoldable pub clamp_fragment_size : ℕ → ℕ
clamp_fragment_size configured =
    let d : ℕ = configured % 2 ^ 16 in
    if ltb d min_fragment_size
    then min_fragment_size
    else if ltb max_fragment_size d
    then max_fragment_size
    else d

-- `last`: the bytes that are left, the first one on top.
unfoldable pub last_word : ℕ → Bytes → ℕ
last_word acc [] = acc
last_word acc (b ∷ bs) = last_word (acc * 256 % 2 ^ 32 + b) bs

unfoldable pub checksum_loop : ℕ → Bytes → ℕ
checksum_loop sum (a ∷ b ∷ c ∷ d ∷ rest) =
    checksum_loop (bit_xor sum (a + 256 * (b + 256 * (c + 256 * d)))) rest
checksum_loop sum (a ∷ b ∷ c ∷ []) = bit_xor sum (last_word 0 (a ∷ b ∷ c ∷ []))
checksum_loop sum (a ∷ b ∷ []) = bit_xor sum (last_word 0 (a ∷ b ∷ []))
checksum_loop sum (a ∷ []) = bit_xor sum (last_word 0 (a ∷ []))
checksum_loop sum [] = bit_xor sum 0

-- `checksum`, whose length is a `uint16_t`.
unfoldable pub checksum : ℕ → Bytes → ℕ → ℕ
checksum seed bytes len = checksum_loop seed (take (len % 2 ^ 16) bytes) % 2 ^ 32

-- `fragment_len` is the union with `acking_server`.
pub record Frame : Type 0 where
  pub server_id : ℕ
  pub message_id : ℕ
  pub fragment_num : ℕ
  pub fragment_len : ℕ
  pub data_checksum : ℕ
  pub payload : Bytes

unfoldable pub put_half : ℕ → Bytes → Bytes
put_half n rest = n % 256 ∷ n / 256 % 256 ∷ rest

unfoldable pub half : Bytes → Option (ℕ × Bytes)
half (a ∷ b ∷ rest) = some (a + 256 * b, rest)
half (a ∷ []) = none
half [] = none

unfoldable pub frame_bytes : Frame → Bytes
frame_bytes f = put_word f.server_id (
    put_word f.message_id
      (put_half f.fragment_num (put_word f.fragment_len (put_word f.data_checksum f.payload))))

-- The members of the frame in a packet.
unfoldable pub parse_frame : Bytes → Option Frame
parse_frame packet = do
  (server, p1) ← word packet
  (id, p2) ← word p1
  (num, p3) ← half p2
  (len, p4) ← word p3
  (sum, p5) ← word p4
  some (record {
    server_id = server;
    message_id = id;
    fragment_num = num;
    fragment_len = len;
    data_checksum = sum;
    payload = p5;
  })

-- The bit that marks the last fragment: `num | 1 << 15` on a `uint16_t`.
unfoldable pub mark_last : ℕ → ℕ
mark_last num = num % 2 ^ 15 + 2 ^ 15

-- The frame of the fragment `i` of `n`, counted from 1, in the loop of `sendMessage`.
unfoldable pub fragment_frame : ℕ → ℕ → ℕ → Bytes → ℕ → ℕ → Frame
fragment_frame seed server id blob n i =
    let base : ℕ = length blob / n in
    let large : ℕ = length blob % n in
    let len : ℕ = fragment_length base large (i - 1) in
    let part : Bytes = fragment base large blob (i - 1) in
    record {
      server_id = server;
      message_id = id;
      fragment_num = if i == n then mark_last i else i;
      fragment_len = len;
      data_checksum = checksum seed part len;
      payload = part;
    }

-- `sendFrame` for each fragment in the order of `order`.
unfoldable pub send_frames : (Bytes → Option Bytes) → (ℕ → Frame) → List ℕ → List Bytes
send_frames encrypt frame [] = []
send_frames encrypt frame (i ∷ order) =
    let rest = send_frames encrypt frame order in
    elim (encrypt (frame_bytes (frame i))) [ none ↦ rest | some packet ↦ packet ∷ rest ]

-- The numbers 1 to `n`, to be shuffled.
unfoldable pub numbers : ℕ → List ℕ
numbers zero = []
numbers (suc n) = numbers n ++ suc n ∷ []

-- `sendMessage` to `server`: its result, the packets, and the delays that it leaves. `blob` is
-- what `getBlob` gives, and `resolved` whether `getSockAddr` finds an address. The test against too
-- many fragments reads bit 31 of a `uint16_t`.
unfoldable pub send_message :
    (Bytes → Option Bytes)
    → (List ℕ → List ℕ)
    → ℕ
    → ℕ
    → Bool
    → Option Bytes
    → ℕ
    → ℕ
    → ℕ
    → Messenger
    → Bool × List Bytes × Messenger
send_message encrypt shuffle seed most resolved none origin id server s = (false, [], s)
send_message encrypt shuffle seed most resolved (some blob) origin id server s =
    if (length blob == 0) || not resolved
    then (false, [], s)
    else let n : ℕ = num_fragments most (length blob) in
      if leb (2 ^ 31) n then (false, [], s) else (
        true,
        send_frames encrypt (fragment_frame seed origin id blob n) (shuffle (numbers n)),
        (get_backoff server s).1,
      )

-- The frame of `sendAck`.
unfoldable pub ack_frame : ℕ → ℕ → ℕ → ℕ → Frame
ack_frame seed own server id = record {
  server_id = server;
  message_id = id;
  fragment_num = 0;
  fragment_len = own;
  data_checksum = checksum seed [] 0;
  payload = 0 ∷ [];
}
