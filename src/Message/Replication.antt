-- ===== src/Message/Replication.antt =====
-- From `makeMessage` on one server to `buildMessage` on another.
use abacuscm.Prelude.{
  ℕ, zero, suc, ◌-◌, ◌^◌, ◌≤◌, ◌<◌, ◌≡◌, refl, ap, ◌∙◌, ◌≢◌, false, none, some, List, arith, ◌==◌,
  ==_ne, length, Bytes, nat_order, bytes_order, find,
}
use abacuscm.Wire.{Load, loaded}
use abacuscm.Message.{
  Message, Codec, Services, made, built, build_blob, blob_bytes, make_blob, make_message, send_all,
  sent_to, set_message_id, zeros, fresh, signature_size,
}
use abacuscm.Message.RoundTrip.{IsSendable, build_blob-blob_bytes}

-- What `store` and `load` of a message owe to each other for the contents that satisfy `Valid`.
pub record IsLawful {ℓ} {A : Type ℓ} (k : Codec A) (Valid : A → Type 0) : Type ℓ where
  pub small : (c : A) → Valid c → k.storage_required c < 2 ^ 32 - 1
  pub stores :
      (c : A) (old : Bytes)
      → Valid c
      → length old ≡ k.storage_required c
      → (buf : Bytes) × (k.store c old ≡ some buf)
        × (1 ≤ length buf)
        × (k.load buf ≡ loaded c (k.storage_required c))

length-zeros : (n : ℕ) → length (zeros n) ≡ n
unfolding zeros
length-zeros zero = refl
length-zeros (suc n) = ap suc (length-zeros n)

module _ {ℓ} {A : Type ℓ} (env : Services A) (type_id id : ℕ) (small_own : env.own_id < 2 ^ 32)
    (small_now : env.now < 2 ^ 32) (small_type : type_id < 2 ^ 32) (small_id : id < 2 ^ 32)
    (own : env.own_id ≢ 0) where
  -- The message that `makeMessage` leaves, with its data, but for the blob.
  abbrev finished : A → Bytes → Message A
  finished c buf = record {
    server_id = env.own_id;
    message_id = id;
    time = env.now;
    message_type_id = type_id;
    payload = some buf;
    signature = some (zeros signature_size);
    blob = none;
    content = c;
  }

  abbrev stamped : A → Bytes → Message A
  stamped c buf = record (fresh type_id c) {
    server_id = env.own_id;
    time = env.now;
    payload = some buf;
  }

  set_message_id-stamped :
      (c : A) (buf : Bytes) → set_message_id id (stamped c buf) ≡ finished c buf
  unfolding set_message_id fresh
  set_message_id-stamped c buf =
      let q : (env.own_id == 0) ≡ false = ==_ne env.own_id 0 own in rw (q, set_message_id) refl

  send_all-finished :
      (c : A) (buf : Bytes)
      → send_all env (make_blob (finished c buf))
        ≡ made
            (record (finished c buf) {
              blob = some (blob_bytes (finished c buf) (zeros signature_size) buf);
            })
            (sent_to env.send_message
              (blob_bytes (finished c buf) (zeros signature_size) buf)
              env.remote_servers)
  unfolding send_all make_blob
  send_all-finished c buf = refl

  make_message-fresh :
      (c : A) (buf : Bytes)
      → env.codec.storage_required c < 2 ^ 32 - 1
      → env.codec.store c (env.allocated (env.codec.storage_required c)) ≡ some buf
      → env.put_local_message (stamped c buf) ≡ some id
      → make_message env (fresh type_id c)
        ≡ send_all env (make_blob (set_message_id id (stamped c buf)))
  unfolding make_message fresh
  make_message-fresh c buf h s p =
      let q : (env.codec.storage_required c == 2 ^ 32 - 1) ≡ false =
        ==_ne (env.codec.storage_required c) (2 ^ 32 - 1) (λ e. omega arith) in
      rw (q, make_message, s, p) refl

  -- A new message with a content that its codec supports is made and sent with the number that the
  -- database gives it, and a server whose functor for the type is that of the codec builds the same
  -- message, with the same content, from the blob that was sent.
  pub make_message-build_blob :
      (Valid : A → Type 0) (functors : List (ℕ × (Bytes → Load A))) (c : A)
      → IsLawful env.codec Valid
      → Valid c
      → ((n : ℕ) → length (env.allocated n) ≡ n)
      → ((m : Message A) → env.put_local_message m ≡ some id)
      → find type_id functors ≡ some env.codec.load
      → (m : Message A) × (b : Bytes) × (make_message env (fresh type_id c)
          ≡ made m (sent_to env.send_message b env.remote_servers))
        × (m.blob ≡ some b)
        × (build_blob functors b ≡ built m)
        × (m.content ≡ c)
        × (m.server_id ≡ env.own_id)
        × (m.message_id ≡ id)
  make_message-build_blob Valid functors c law v alloc put' f =
      let (buf, s, some', l) =
        law.stores c (env.allocated (env.codec.storage_required c)) v
          (alloc (env.codec.storage_required c)) in
      let b : Bytes = blob_bytes (finished c buf) (zeros signature_size) buf in
      let w : IsSendable (finished c buf) (zeros signature_size) buf = record {
        small_server_id = small_own;
        small_message_id = small_id;
        small_time = small_now;
        small_type_id = small_type;
        signature_is = refl;
        payload_is = refl;
        signed = length-zeros signature_size;
        payload_some = some';
      } in
      (
        record (finished c buf) { blob = some b },
        b,
        make_message-fresh c buf (law.small c v) s (put' (stamped c buf))
            ∙ ap (λ m. send_all env (make_blob m)) (set_message_id-stamped c buf)
            ∙ send_all-finished c buf,
        refl,
        build_blob-blob_bytes functors env.codec.load (finished c buf) (zeros signature_size) buf
            (env.codec.storage_required c) w f l,
        refl,
        refl,
        refl,
      )
