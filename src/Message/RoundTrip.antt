-- ===== src/Message/RoundTrip.antt =====
-- A blob is built back into the message that it was made from.
use abacuscm.Prelude.{
  ℕ, ◌+◌, ◌^◌, ◌≤◌, ◌<◌, ◌≡◌, refl, sym, ap, ◌∙◌, false, some, List, ◌++◌, arith, ltb, length, take,
  drop, length-append, take-length_append, drop-length_append, Bytes, nat_order, bytes_order, find,
}
use abacuscm.Wire.{Load, loaded, put_word}
use abacuscm.Wire.Words.{word_bytes}
use abacuscm.Message.{
  Message, built, build_blob, build, header, word, blob_bytes, signature_size, blob_min,
}

pub word-put_word : (n : ℕ) (rest : Bytes) → n < 2 ^ 32 → word (put_word n rest) ≡ some (n, rest)
unfolding word put_word
word-put_word n rest h = ap (λ m. some (m, rest)) (word_bytes n h)

abbrev words : ℕ → ℕ → ℕ → ℕ → Bytes → Bytes
words server id t type_id rest = put_word server (put_word id (put_word t (put_word type_id rest)))

header-words :
    (server id t type_id : ℕ) (rest : Bytes)
    → server < 2 ^ 32
    → id < 2 ^ 32
    → t < 2 ^ 32
    → type_id < 2 ^ 32
    → header (words server id t type_id rest) ≡ some (server, id, t, type_id, rest)
unfolding header
header-words server id t type_id rest h1 h2 h3 h4 =
    rw
      (
        word-put_word server (put_word id (put_word t (put_word type_id rest))) h1,
        word-put_word id (put_word t (put_word type_id rest)) h2,
        word-put_word t (put_word type_id rest) h3,
        word-put_word type_id rest h4,
      )
      refl

length-words :
    (server id t type_id : ℕ) (rest : Bytes)
    → length (words server id t type_id rest) ≡ 16 + length rest
unfolding put_word
length-words server id t type_id rest = omega arith

-- The numbers fit their 32 bits, and the signature has its length.
pub record IsSendable {ℓ} {A : Type ℓ} (m : Message A) (sign bytes : Bytes) : Type ℓ where
  pub small_server_id : m.server_id < 2 ^ 32
  pub small_message_id : m.message_id < 2 ^ 32
  pub small_time : m.time < 2 ^ 32
  pub small_type_id : m.message_type_id < 2 ^ 32
  pub signature_is : m.signature ≡ some sign
  pub payload_is : m.payload ≡ some bytes
  pub signed : length sign ≡ signature_size
  pub payload_some : 1 ≤ length bytes

module _ {ℓ} {A : Type ℓ} where
  built-fields :
      (m : Message A) (c : A) (sign bytes b : Bytes)
      → m.signature ≡ some sign
      → m.payload ≡ some bytes
      → m.content ≡ c
      → built (record m { signature = some sign; payload = some bytes; blob = some b; content = c })
        ≡ built (record m { blob = some b })
  built-fields m c sign bytes b h k q =
      ap (λ s. built (record m { signature = s; payload = some bytes; blob = some b; content = c }))
        (sym h)
      ∙ ap (λ p. built (record m { payload = p; blob = some b; content = c })) (sym k)
      ∙ ap (λ x. built (record m { blob = some b; content = x })) (sym q)

  length-blob_bytes :
      (m : Message A) (sign bytes : Bytes)
      → length (blob_bytes m sign bytes) ≡ 16 + (length sign + length bytes)
  unfolding blob_bytes
  length-blob_bytes m sign bytes =
      length-words m.server_id m.message_id m.time m.message_type_id (sign ++ bytes)
      ∙ ap (◌+◌ 16) (length-append sign bytes)

  header-blob_bytes :
      (m : Message A) (sign bytes : Bytes)
      → IsSendable m sign bytes
      → header (blob_bytes m sign bytes)
        ≡ some (m.server_id, m.message_id, m.time, m.message_type_id, sign ++ bytes)
  unfolding blob_bytes
  header-blob_bytes m sign bytes w =
      header-words m.server_id m.message_id m.time m.message_type_id (sign ++ bytes)
        w.small_server_id w.small_message_id w.small_time w.small_type_id

  build-loaded :
      (load : Bytes → Load A) (m : Message A) (sign bytes b : Bytes) (n : ℕ)
      → IsSendable m sign bytes
      → load bytes ≡ loaded m.content n
      → build load m.server_id m.message_id m.time m.message_type_id sign bytes (some b)
        ≡ built (record m { blob = some b })
  unfolding build
  build-loaded load m sign bytes b n w l =
      rw (l, build) (built-fields m m.content sign bytes b w.signature_is w.payload_is refl)

  -- Where the functor of the type reads the data of the message as its content, the blob of the
  -- message is built back into the message.
  pub build_blob-blob_bytes :
      (functors : List (ℕ × (Bytes → Load A))) (load : Bytes → Load A) (m : Message A)
      (sign bytes : Bytes) (n : ℕ)
      → IsSendable m sign bytes
      → find m.message_type_id functors ≡ some load
      → load bytes ≡ loaded m.content n
      → build_blob functors (blob_bytes m sign bytes)
        ≡ built (record m { blob = some (blob_bytes m sign bytes) })
  unfolding build_blob
  build_blob-blob_bytes functors load m sign bytes n w f l =
      let len : length (blob_bytes m sign bytes) ≡ 16 + (length sign + length bytes) =
        length-blob_bytes m sign bytes in
      let q : ltb (length (blob_bytes m sign bytes)) blob_min ≡ false =
        ground (arith, w.signed, w.payload_some) in
      let t : take signature_size (sign ++ bytes) ≡ sign =
        ap (λ k. take k (sign ++ bytes)) (sym w.signed) ∙ take-length_append sign bytes in
      let d : drop signature_size (sign ++ bytes) ≡ bytes =
        ap (λ k. drop k (sign ++ bytes)) (sym w.signed) ∙ drop-length_append sign bytes in
      let b : Bytes = blob_bytes m sign bytes in
      rw (q, build_blob, header-blob_bytes m sign bytes w, f)
        (ap
            (λ s.
              build load m.server_id m.message_id m.time m.message_type_id s
                (drop signature_size (sign ++ bytes)) (some b))
            t
          ∙ ap (λ p. build load m.server_id m.message_id m.time m.message_type_id sign p (some b)) d
          ∙ build-loaded load m sign bytes b n w l)
