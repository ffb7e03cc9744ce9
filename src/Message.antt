-- ===== src/Message.antt =====
-- src/message.C: how a message is made from its content, the blob that travels between servers, and
-- how a server builds a message from a blob or from a row of the database and processes it.
-- The content has any type `A`: it stands for what a subclass of `Message` adds. The database and
-- the messages' own virtual methods are arguments.
pub mod RoundTrip
pub mod Replication
pub mod Codecs
use abacuscm.Prelude.{
  ℕ, zero, suc, ◌+◌, ◌-◌, ◌*◌, ◌/◌, ◌%◌, ◌^◌, ◌≤◌, ◌<◌, String, ◌≡◌, refl, sym, ap, ◌∙◌, subst, ◌≢◌,
  ◌↔◌, ◌⊎◌, inl, inr, Bool, true, false, not, ◌&&◌, ◌||◌, Option, none, some, List, [], ◌∷◌, ◌++◌,
  map, append-nil, append_assoc, arith, ltb, leb, ◌==◌, if◌then◌else◌, ltb→lt, lt→ltb, leb→le,
  ==_iff, ==_refl, ==_ne, Bool-cases, Option-cases, ◌>>=◌, length, take, drop, length-append,
  take-length_append, take-length, take-append_ge, take-append_le, drop-length_append,
  take-append_drop, length-take, length-drop, All, All-append, list-cases, Bytes, codes, eq_bytes,
  lt_bytes, Lacks, eq_bytes_refl, eq_bytes→eq, eq_bytes_iff, lt_bytes-asymm, lt_bytes_irrefl,
  lt_bytes_trans, lt_bytes-connex, StrictOrder, nat_order, bytes_order, same, find, put, erase,
  same_refl, same→eq, find-put, find-erase, Below, IsSorted, put-Below, put-IsSorted,
  erase-IsSorted,
}
use abacuscm.Wire.{Load, fault, refused, loaded, put_word, with_word}

-- `MESSAGE_SIGNATURE_SIZE`
abbrev pub signature_size : ℕ
signature_size = 128

-- `sizeof(st_blob)`, one byte of data included.
abbrev pub blob_min : ℕ
blob_min = 145

-- The members of `Message`: `none` is a null pointer.
pub record Message {ℓ} (A : Type ℓ) : Type ℓ where
  pub server_id : ℕ
  pub message_id : ℕ
  pub time : ℕ
  pub message_type_id : ℕ
  pub payload : Option Bytes
  pub signature : Option Bytes
  pub blob : Option Bytes
  pub content : A

-- What a constructor of a subclass leaves.
unfoldable pub fresh {ℓ} : {A : Type ℓ} → ℕ → A → Message A
fresh type_id c = record {
  server_id = 0;
  message_id = 0;
  time = 0;
  message_type_id = type_id;
  payload = none;
  signature = none;
  blob = none;
  content = c;
}

-- `memset(p, 0, n)`
unfoldable pub zeros : ℕ → Bytes
zeros zero = []
zeros (suc n) = 0 ∷ zeros n

-- The virtual methods of a message. `store` is given what is in the buffer and is `none` for `~0U`
-- or for more bytes than the buffer has.
pub record Codec {ℓ} (A : Type ℓ) : Type ℓ where
  pub storage_required : A → ℕ
  pub store : A → Bytes → Option Bytes
  pub load : Bytes → Load A

-- What `makeMessage` calls: the methods of the message, what is in the memory that `new` gives, the
-- clock, `Server::getId`, the number that the database gives to the message, and the messenger.
pub record Services {ℓ} (A : Type ℓ) : Type ℓ where
  pub codec : Codec A
  pub allocated : ℕ → Bytes
  pub own_id : ℕ
  pub now : ℕ
  pub put_local_message : Message A → Option ℕ
  pub remote_servers : List ℕ
  pub send_message : ℕ → Bytes → Bool

-- How `makeMessage` ends; the list holds the servers to which the message was sent. `crashed` is a
-- copy from a null pointer.
pub data Made {ℓ} (A : Type ℓ) : Type ℓ where
  failed : Made A
  crashed : Made A
  made : Message A → List ℕ → Made A

-- What the two static `buildMessage` return: `overrun` is a load that reads past the end, `absent`
-- is a null pointer.
pub data Built {ℓ} (A : Type ℓ) : Type ℓ where
  overrun : Built A
  absent : Built A
  built : Message A → Built A

-- What `process` did: its result, whether the database marked the message as processed, and whether
-- the semaphore of the watcher was posted.
pub record Processed : Type 0 where
  pub status : Bool
  pub marked : Bool
  pub posted : Bool

-- The loop at the end of `makeMessage`.
unfoldable pub sent_to : (ℕ → Bytes → Bool) → Bytes → List ℕ → List ℕ
sent_to send b [] = []
sent_to send b (server ∷ servers) =
    let rest = sent_to send b servers in if send server b then server ∷ rest else rest

-- A word of the header and the bytes behind it.
unfoldable pub word : Bytes → Option (ℕ × Bytes)
word (a ∷ b ∷ c ∷ d ∷ rest) = some (a + 256 * (b + 256 * (c + 256 * d)), rest)
word (a ∷ b ∷ c ∷ []) = none
word (a ∷ b ∷ []) = none
word (a ∷ []) = none
word [] = none

-- The four words in front of the signature, read from a buffer that holds them.
unfoldable pub header : Bytes → Option (ℕ × ℕ × ℕ × ℕ × Bytes)
header buf = do
  (server, p1) ← word buf
  (id, p2) ← word p1
  (t, p3) ← word p2
  (type_id, p4) ← word p3
  some (server, id, t, type_id, p4)

-- `process`, for the result of `int_process`, whether there is a connection to the database, and
-- whether a watcher is set.
unfoldable pub process : Bool → Bool → Bool → Processed
process status connected watched = record {
  status = status;
  marked = status && connected;
  posted = watched;
}

module _ {ℓ} {A : Type ℓ} where
  unfoldable pub set_message_id : ℕ → Message A → Message A
  set_message_id id m =
      if (m.server_id == 0) && (m.time == 0)
      then m
      else record m { message_id = id; signature = some (zeros signature_size) }

  -- The bytes that `makeBlob` writes.
  unfoldable pub blob_bytes : Message A → Bytes → Bytes → Bytes
  blob_bytes m sign bytes =
      put_word m.server_id
        (put_word m.message_id (put_word m.time (put_word m.message_type_id (sign ++ bytes))))

  -- `makeBlob`: `none` where a pointer that it copies from is null.
  unfoldable pub make_blob : Message A → Option (Message A)
  make_blob m = elim m.signature [
    | none ↦ none
    | some sign ↦ elim m.payload [
      | none ↦ none
      | some bytes ↦ some (record m { blob = some (blob_bytes m sign bytes) })
    ]
  ]

  -- `makeMessage` behind `makeBlob`.
  unfoldable pub send_all : Services A → Option (Message A) → Made A
  send_all env none = crashed
  send_all env (some m) = elim m.blob [
    | none ↦ crashed
    | some b ↦ made m (sent_to env.send_message b env.remote_servers)
  ]

  unfoldable pub make_message : Services A → Message A → Made A
  make_message env m =
      if not (m.server_id == 0) || not (m.message_id == 0) || not (m.time == 0)
      then failed
      else let size : ℕ = env.codec.storage_required m.content in
        if size == 2 ^ 32 - 1
        then failed
        else elim (env.codec.store m.content (env.allocated size)) [
          | none ↦ failed
          | some buffer ↦
              let stamped : Message A = record m {
                server_id = env.own_id;
                time = env.now;
                payload = some buffer;
              } in
              elim (env.put_local_message stamped) [
                | none ↦ failed
                | some id ↦ send_all env (make_blob (set_message_id id stamped))
              ]
        ]

  -- `buildMessage`, the member, on a message that a functor has made.
  unfoldable pub build : (Bytes → Load A) → ℕ → ℕ → ℕ → ℕ → Bytes → Bytes → Option Bytes → Built A
  build load server id t type_id sign bytes blob = elim (load bytes) [
    | fault ↦ overrun
    | refused ↦ absent
    | loaded c n ↦
        let m : Message A = record {
          server_id = server;
          message_id = id;
          time = t;
          message_type_id = type_id;
          payload = some bytes;
          signature = some sign;
          blob = blob;
          content = c;
        } in
        elim blob [
          | none ↦ elim (make_blob m) [ none ↦ absent | some n ↦ built n ]
          | some b ↦ built m
        ]
  ]

  -- `buildMessage` from the columns of a row. The functors are kept by `load` of the object that
  -- each makes.
  unfoldable pub build_message :
      List (ℕ × (Bytes → Load A)) → ℕ → ℕ → ℕ → ℕ → Bytes → Bytes → Built A
  build_message functors server id type_id t sign bytes = elim (find type_id functors) [
    | none ↦ absent
    | some load ↦ build load server id t type_id sign bytes none
  ]

  -- `buildMessage` from a blob.
  unfoldable pub build_blob : List (ℕ × (Bytes → Load A)) → Bytes → Built A
  build_blob functors buf = if ltb (length buf) blob_min then absent else elim (header buf) [
    | none ↦ overrun
    | some (server, id, t, type_id, rest) ↦ elim (find type_id functors) [
      | none ↦ absent
      | some load ↦
          build load server id t type_id (take signature_size rest) (drop signature_size rest)
            (some buf)
    ]
  ]

  -- `registerMessageFunctor`
  unfoldable pub register_message_functor :
      ℕ → (Bytes → Load A) → List (ℕ × (Bytes → Load A)) → List (ℕ × (Bytes → Load A))
  register_message_functor type_id load functors = put type_id load functors
