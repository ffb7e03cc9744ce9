-- ===== src/UdpMessenger/Delivery.antt =====
-- The frames of a message, from `sendMessage` on one server to `getMessage` on another.
use abacuscm.Prelude.{
  ℕ, ◌^◌, ◌≤◌, ◌<◌, ◌≡◌, refl, sym, ap, ◌∙◌, inl, inr, Bool, true, false, Option, none, some, List,
  [], ◌∷◌, ◌==◌, Bool-cases, length, Bytes, nat_order, bytes_order, same, find, put, same_refl,
  find-put,
}
use abacuscm.Message.{Message, built, build_blob}
use abacuscm.UdpMessenger.Frames.{frame_bytes, fragment_frame, send_frames, max_fragment_size}
use abacuscm.UdpMessenger.Receive.{
  Environment, Receiver, Collection, or_new, next, done, Outcome, waiting, received, failed,
  server_fragments, collection, put_collection, erase_collection, empty_collection, add_fragment,
  blob_of, complete, absorb, receive, get_message,
}
use abacuscm.UdpMessenger.Gather.{gather, InRange}
use abacuscm.UdpMessenger.Bounds.{IsCount}
use abacuscm.UdpMessenger.Packets.{IsCipher, part_of, receive-fragment, length-frame}

-- The message that `getMessage` returns.
unfoldable pub delivered {ℓ} : {A : Type ℓ} → Outcome A → Option (Message A)
delivered (waiting s) = none
delivered (received m s packets) = some m
delivered failed = none

find-put_same {ℓ} : {V : Type ℓ} (k : ℕ) (v : V) (m : List (ℕ × V)) → find k (put k v m) ≡ some v
find-put_same k v m = let e : same k k ≡ true = same_refl k in find-put k k v m ∙ rw e refl

collection-put_collection :
    (server id : ℕ) (s : Receiver) (c : Collection)
    → collection server id (put_collection server id c s) ≡ c
unfolding collection put_collection server_fragments or_new
collection-put_collection server id s c =
    ap (λ o. or_new empty_collection (find id (or_new [] o)))
      (find-put_same server (put id c (server_fragments server s)) s.fragments)
    ∙ ap (or_new empty_collection) (find-put_same id c (server_fragments server s))

-- One fragment in `gather`.
gather-done :
    (n i : ℕ) (part : ℕ → Bytes) (order : List ℕ) (c : Collection)
    → (add_fragment i (i == n) (part i) c).1 ≡ true
    → gather n part (i ∷ order) c ≡ some (blob_of (add_fragment i (i == n) (part i) c).0.fragments)
unfolding gather
gather-done n i part order c e = rw (e, gather) refl

gather-next :
    (n i : ℕ) (part : ℕ → Bytes) (order : List ℕ) (c : Collection)
    → (add_fragment i (i == n) (part i) c).1 ≡ false
    → gather n part (i ∷ order) c ≡ gather n part order (add_fragment i (i == n) (part i) c).0
unfolding gather
gather-next n i part order c e = rw (e, gather) refl

module _ {ℓ} {A : Type ℓ} (env : Environment A) (encrypt : Bytes → Option Bytes)
    (server id most n : ℕ) (blob : Bytes) (cipher : IsCipher encrypt env.decrypt)
    (small_server : server < 2 ^ 32) (small_id : id < 2 ^ 32) (le_most : most ≤ max_fragment_size)
    (counted : IsCount most (length blob) n) (few_parts : n < 2 ^ 15)
    (lacking : env.has_message server id ≡ false) where
  absorb-done :
      (m : Message A) (i : ℕ) (last : Bool) (part : Bytes) (s : Receiver)
      → (add_fragment i last part (collection server id s)).1 ≡ true
      → build_blob env.functors
          (blob_of (add_fragment i last part (collection server id s)).0.fragments)
        ≡ built m
      → (t : Receiver) × (absorb env server id i last part s ≡ done m t)
  unfolding absorb complete
  absorb-done m i last part s e b = (
    erase_collection server id
        (put_collection server id (add_fragment i last part (collection server id s)).0 s),
    rw (e, absorb, complete, b) refl,
  )

  absorb-next :
      (i : ℕ) (last : Bool) (part : Bytes) (s : Receiver)
      → (add_fragment i last part (collection server id s)).1 ≡ false
      → absorb env server id i last part s
        ≡ next (put_collection server id (add_fragment i last part (collection server id s)).0 s)
  unfolding absorb
  absorb-next i last part s e = rw (e, absorb) refl

  pub get_message-gather :
      (m : Message A) (order : List ℕ) (s : Receiver)
      → InRange n order
      → ((b : Bytes)
          → gather n (part_of blob n) order (collection server id s) ≡ some b
          → build_blob env.functors b ≡ built m)
      → delivered (
          get_message env
            (send_frames encrypt (fragment_frame env.checksum_seed server id blob n) order)
            s)
        ≡ elim (gather n (part_of blob n) order (collection server id s)) [
          | none ↦ none
          | some b ↦ some m
        ]
  unfolding get_message send_frames delivered gather
  get_message-gather m [] s r h = refl
  get_message-gather m (i ∷ order) s r h =
      let (packet, e, d, l) =
        cipher.encrypts (frame_bytes (fragment_frame env.checksum_seed server id blob n i)) (
          length-frame env server id most n blob small_server small_id le_most counted few_parts
            lacking i r.0.0 r.0.1) in
      let q : receive env packet s ≡ absorb env server id i (i == n) (part_of blob n i) s =
        receive-fragment env server id most n blob small_server small_id le_most counted few_parts
          lacking i packet s r.0.0 r.0.1 d l in
      let c : Collection = collection server id s in
      elim (Bool-cases (add_fragment i (i == n) (part_of blob n i) c).1) [
        | inl y ↦
            let g : gather n (part_of blob n) (i ∷ order) c
                ≡ some (blob_of (add_fragment i (i == n) (part_of blob n i) c).0.fragments) =
              gather-done n i (part_of blob n) order c y in
            let (t, a) = absorb-done m i (i == n) (part_of blob n i) s y (h _ g) in
            rw (e, send_frames, q, get_message, a, g) refl
        | inr y ↦
            let g : gather n (part_of blob n) (i ∷ order) c
                ≡ gather n (part_of blob n) order (add_fragment i (i == n) (part_of blob n i) c).0 =
              gather-next n i (part_of blob n) order c y in
            let t : Receiver =
              put_collection server id (add_fragment i (i == n) (part_of blob n i) c).0 s in
            let k : collection server id t ≡ (add_fragment i (i == n) (part_of blob n i) c).0 =
              collection-put_collection server id s
                (add_fragment i (i == n) (part_of blob n i) c).0 in
            let k' : gather n (part_of blob n) order (collection server id t)
                ≡ gather n (part_of blob n) (i ∷ order) c =
              ap (gather n (part_of blob n) order) k ∙ sym g in
            rw
              (
                e,
                send_frames,
                q,
                get_message,
                absorb-next i (i == n) (part_of blob n i) s y,
                sym k',
              )
              (get_message-gather m order t r.1 (λ b z. h b (sym k' ∙ z)))
      ]
