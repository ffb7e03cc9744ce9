-- ===== src/UdpMessenger/Packets.antt =====
-- A frame is read from the bytes that it was sent as, and a fragment that `sendMessage` sends reaches
-- the last branch of `getMessage`.
use abacuscm.Prelude.{
  ℕ, ◌+◌, ◌-◌, ◌*◌, ◌/◌, ◌%◌, ◌^◌, ◌≤◌, ◌<◌, ◌≡◌, refl, ap, ◌∙◌, true, false, Option, some, arith,
  ltb, leb, ◌==◌, if◌then◌else◌, ==_refl, length, Bytes, nat_order, bytes_order,
}
use abacuscm.Wire.{put_word}
use abacuscm.Message.RoundTrip.{word-put_word}
use abacuscm.UdpMessenger.{fragment_length, fragment}
use abacuscm.UdpMessenger.Frames.{
  Frame, put_half, half, frame_bytes, parse_frame, mark_last, fragment_frame, checksum,
  max_fragment_size, st_frame_size, buffer_size, max_blocksize,
}
use abacuscm.UdpMessenger.Receive.{Environment, Receiver, absorb, handle, receive}
use abacuscm.UdpMessenger.Bounds.{IsCount, IsPart, IsCount-IsPart, length-fragment}

half-put_half : (n : ℕ) (rest : Bytes) → n < 2 ^ 16 → half (put_half n rest) ≡ some (n, rest)
unfolding half put_half
half-put_half n rest h =
    let e : n % 256 + 256 * (n / 256 % 256) ≡ n = omega arith in ap (λ m. some (m, rest)) e

-- The numbers of the frame fit their fields.
pub record IsFrame (f : Frame) : Type 0 where
  pub small_server_id : f.server_id < 2 ^ 32
  pub small_message_id : f.message_id < 2 ^ 32
  pub small_fragment_num : f.fragment_num < 2 ^ 16
  pub small_fragment_len : f.fragment_len < 2 ^ 32
  pub small_data_checksum : f.data_checksum < 2 ^ 32

pub parse_frame-frame_bytes : (f : Frame) → IsFrame f → parse_frame (frame_bytes f) ≡ some f
unfolding parse_frame frame_bytes
parse_frame-frame_bytes f w =
    rw
      (
        word-put_word f.server_id
            (put_word f.message_id (
              put_half f.fragment_num
                (put_word f.fragment_len (put_word f.data_checksum f.payload))))
            w.small_server_id,
        word-put_word f.message_id
            (put_half f.fragment_num (put_word f.fragment_len (put_word f.data_checksum f.payload)))
            w.small_message_id,
        half-put_half f.fragment_num (put_word f.fragment_len (put_word f.data_checksum f.payload))
            w.small_fragment_num,
        word-put_word f.fragment_len (put_word f.data_checksum f.payload) w.small_fragment_len,
        word-put_word f.data_checksum f.payload w.small_data_checksum,
      )
      refl

pub length-frame_bytes : (f : Frame) → length (frame_bytes f) ≡ 18 + length f.payload
unfolding frame_bytes put_word put_half
length-frame_bytes f = omega arith

-- What the library of the ciphers promises: a packet of a full buffer is encrypted, grows by no more
-- than a block, and is decrypted to what it was.
pub record IsCipher (encrypt decrypt : Bytes → Option Bytes) : Type 0 where
  pub encrypts :
      (plain : Bytes)
      → length plain ≤ buffer_size
      → (packet : Bytes) × (encrypt plain ≡ some packet)
        × (decrypt packet ≡ some plain)
        × (length packet ≤ length plain + max_blocksize)

-- The data of the fragment `i`, counted from 1.
abbrev pub part_of : Bytes → ℕ → ℕ → Bytes
part_of blob n i = fragment (length blob / n) (length blob % n) blob (i - 1)

checksum_small : (seed : ℕ) (bytes : Bytes) (len : ℕ) → checksum seed bytes len < 2 ^ 32
unfolding checksum
checksum_small seed bytes len = omega arith

module _ {ℓ} {A : Type ℓ} (env : Environment A) (server id most n : ℕ) (blob : Bytes)
    (small_server : server < 2 ^ 32) (small_id : id < 2 ^ 32) (le_most : most ≤ max_fragment_size)
    (counted : IsCount most (length blob) n) (few_parts : n < 2 ^ 15)
    (lacking : env.has_message server id ≡ false) where
  abbrev frame : ℕ → Frame
  frame i = fragment_frame env.checksum_seed server id blob n i

  length-part :
      (i : ℕ)
      → 1 ≤ i
      → i ≤ n
      → length (part_of blob n i) ≡ fragment_length (length blob / n) (length blob % n) (i - 1)
  length-part i a b =
      length-fragment (length blob / n) (length blob % n) (i - 1) blob
        (IsCount-IsPart most (length blob) n (i - 1) counted (omega arith)).inside

  fragment_frame-IsFrame : (i : ℕ) → 1 ≤ i → i ≤ n → IsFrame (frame i)
  unfolding fragment_frame mark_last
  fragment_frame-IsFrame i a b =
      let p : IsPart most (length blob) n (i - 1) =
        IsCount-IsPart most (length blob) n (i - 1) counted (omega arith) in
      record {
        small_server_id = small_server;
        small_message_id = small_id;
        small_fragment_num = ground arith;
        small_fragment_len = omega (arith, p.small);
        small_data_checksum =
            checksum_small env.checksum_seed (part_of blob n i)
              (fragment_length (length blob / n) (length blob % n) (i - 1));
      }

  length-frame_part : (i : ℕ) → length (frame_bytes (frame i)) ≡ 18 + length (part_of blob n i)
  unfolding fragment_frame
  length-frame_part i = length-frame_bytes (frame i)

  -- A frame of the message passes each test.
  handle-fragment :
      (i : ℕ) (s : Receiver)
      → 1 ≤ i
      → i ≤ n
      → handle env (18 + length (part_of blob n i)) (frame i) s
        ≡ absorb env server id i (i == n) (part_of blob n i) s
  unfolding handle fragment_frame mark_last
  handle-fragment i s a b =
      let num : ℕ = if i == n then i % 2 ^ 15 + 2 ^ 15 else i in
      let len : ℕ = fragment_length (length blob / n) (length blob % n) (i - 1) in
      let q1 : (num == 0) ≡ false = ground arith in
      let q2 : (18 + length (part_of blob n i) == len + st_frame_size - 1) ≡ true =
        ground (arith, length-part i a b) in
      let q3 : (checksum env.checksum_seed (part_of blob n i) len
            == checksum env.checksum_seed (part_of blob n i) len)
          ≡ true =
        ==_refl (checksum env.checksum_seed (part_of blob n i) len) in
      let q4 : num % 2 ^ 15 ≡ i = ground arith in
      let q5 : leb (2 ^ 15) num ≡ (i == n) = ground arith in
      rw (q1, handle, q2, q3, lacking, q4, q5) refl

  pub receive-fragment :
      (i : ℕ) (packet : Bytes) (s : Receiver)
      → 1 ≤ i
      → i ≤ n
      → env.decrypt packet ≡ some (frame_bytes (frame i))
      → length packet ≤ length (frame_bytes (frame i)) + max_blocksize
      → receive env packet s ≡ absorb env server id i (i == n) (part_of blob n i) s
  unfolding receive
  receive-fragment i packet s a b d l =
      let p : IsPart most (length blob) n (i - 1) =
        IsCount-IsPart most (length blob) n (i - 1) counted (omega arith) in
      let k : length (frame_bytes (frame i)) ≡ 18 + length (part_of blob n i) =
        length-frame_part i in
      let h : length (part_of blob n i)
          ≡ fragment_length (length blob / n) (length blob % n) (i - 1) =
        length-part i a b in
      let q : ltb (buffer_size + max_blocksize) (length packet) ≡ false =
        ground (arith, l, k, h, p.small) in
      let t : ltb (length (frame_bytes (frame i))) st_frame_size ≡ false =
        ground (arith, k, h, p.positive) in
      rw (q, receive, d, t, parse_frame-frame_bytes (frame i) (fragment_frame-IsFrame i a b))
        (ap (λ size. handle env size (frame i) s) k ∙ handle-fragment i s a b)

  pub length-frame : (i : ℕ) → 1 ≤ i → i ≤ n → length (frame_bytes (frame i)) ≤ buffer_size
  length-frame i a b =
      let p : IsPart most (length blob) n (i - 1) =
        IsCount-IsPart most (length blob) n (i - 1) counted (omega arith) in
      omega (arith, length-frame_part i, length-part i a b, p.small)
