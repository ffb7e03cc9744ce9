-- ===== src/UdpMessenger/Transfer.antt =====
-- What arrives of a message: exactly when all its fragments have arrived, and as it was made.
use abacuscm.Prelude.{
  ℕ, zero, suc, ◌+◌, ◌-◌, ◌/◌, ◌^◌, ◌≤◌, ◌<◌, ◌≡◌, refl, sym, ap, ◌∙◌, subst, ◌≢◌, inr, Bool, true,
  false, Option, none, some, List, [], ◌∷◌, arith, if◌then◌else◌, length, Bytes, nat_order,
  bytes_order, find,
}
use abacuscm.Wire.{Load}
use abacuscm.Message.{Message, Services, built, build_blob, made, make_message, fresh}
use abacuscm.Message.Replication.{IsLawful, make_message-build_blob}
use abacuscm.UdpMessenger.{num_fragments}
use abacuscm.UdpMessenger.Frames.{
  fragment_frame, send_frames, clamp_fragment_size, max_fragment_size,
}
use abacuscm.UdpMessenger.Receive.{
  Environment, Receiver, or_new, server_fragments, collection, empty_collection, get_message,
}
use abacuscm.UdpMessenger.Collections.{span}
use abacuscm.UdpMessenger.Reassembly.{Collecting, member, arrived, covers-nil}
use abacuscm.UdpMessenger.Gather.{gather, InRange, gather-covers}
use abacuscm.UdpMessenger.Bounds.{IsCount, num_fragments-IsCount, span-fragment}
use abacuscm.UdpMessenger.Packets.{IsCipher, part_of}
use abacuscm.UdpMessenger.Delivery.{delivered, get_message-gather}

few_fragments :
    (d len : ℕ)
    → (len + clamp_fragment_size d - 1) / clamp_fragment_size d < 2 ^ 15
    → num_fragments (clamp_fragment_size d) len < 2 ^ 15
unfolding num_fragments
few_fragments d len h = omega (arith, h)

build_blob-nil {ℓ} :
    {A : Type ℓ} (functors : List (ℕ × (Bytes → Load A))) (m : Message A)
    → build_blob functors [] ≢ built m
unfolding build_blob
build_blob-nil functors m h = cc

built-length {ℓ} :
    {A : Type ℓ} (functors : List (ℕ × (Bytes → Load A))) (m : Message A) (b : Bytes)
    → build_blob functors b ≡ built m
    → 1 ≤ length b
built-length functors m [] h = absurd (build_blob-nil functors m h)
built-length functors m (x ∷ b) h = omega arith

some_inj : (a b : Bytes) → some a ≡ some b → a ≡ b
some_inj a b h = cc

made_inj {ℓ} : {A : Type ℓ} (m n : Message A) (l k : List ℕ) → made m l ≡ made n k → m ≡ n
made_inj m n l k h = cc

-- `_max_fragment_size` is in its range.
clamp_fragment_size_le :
    (d : ℕ) → (1 ≤ clamp_fragment_size d) × (clamp_fragment_size d ≤ max_fragment_size)
unfolding clamp_fragment_size
clamp_fragment_size_le d = ground arith

empty-Collecting : (n : ℕ) (part : ℕ → Bytes) → Collecting n part empty_collection
empty-Collecting n part = record {
  sorted = tt;
  entries = tt;
  received = refl;
  number = inr (tt, omega arith);
}

arrived-nil : (n : ℕ) → 1 ≤ n → arrived n [] ≡ false
unfolding arrived member
arrived-nil zero h = absurd (omega arith)
arrived-nil (suc n) h = refl

if-some {ℓ} :
    {B : Type ℓ} (b : Bool) (x : Bytes) (y : B)
    → elim (if b then some x else none) [ none ↦ none | some z ↦ some y ]
      ≡ (if b then some y else none)
if-some true x y = refl
if-some false x y = refl

if-inj : (b : Bool) (x y : Bytes) → (if b then some x else none) ≡ some y → x ≡ y
if-inj true x y h = cc
if-inj false x y h = cc

module _ {ℓ} {A : Type ℓ} (env : Environment A) (encrypt : Bytes → Option Bytes) (server id d : ℕ)
    (cipher : IsCipher encrypt env.decrypt) (small_server : server < 2 ^ 32)
    (small_id : id < 2 ^ 32) (lacking : env.has_message server id ≡ false) where
  -- The number of fragments of `blob`.
  abbrev pub parts : Bytes → ℕ
  parts blob = num_fragments (clamp_fragment_size d) (length blob)

  -- The frames of `blob` in the order of `order`.
  abbrev pub frames : Bytes → List ℕ → List Bytes
  frames blob order =
      send_frames encrypt (fragment_frame env.checksum_seed server id blob (parts blob)) order

  -- On the frames of a message that is neither empty nor longer than 2^15 - 1 fragments, which come
  -- in any order, some doubled and some lost, and of which nothing has come in before and the
  -- database has nothing, `getMessage` returns the message if each of its fragments is among them,
  -- and nothing if one is not.
  pub get_message-fragments :
      (blob : Bytes) (m : Message A) (order : List ℕ) (s : Receiver)
      → 1 ≤ length blob
      → (length blob + clamp_fragment_size d - 1) / clamp_fragment_size d < 2 ^ 15
      → build_blob env.functors blob ≡ built m
      → find id (server_fragments server s) ≡ none
      → InRange (parts blob) order
      → delivered (get_message env (frames blob order) s)
        ≡ (if arrived (parts blob) order then some m else none)
  unfolding collection or_new
  get_message-fragments blob m order s some' few b f r =
      let n : ℕ = parts blob in
      let k : IsCount (clamp_fragment_size d) (length blob) n =
        num_fragments-IsCount (clamp_fragment_size d) (length blob) some'
          (clamp_fragment_size_le d).0 (omega (arith, few)) in
      let small : n < 2 ^ 15 = few_fragments d (length blob) few in
      let c : collection server id s ≡ empty_collection = ap (or_new empty_collection) f in
      let g : gather n (part_of blob n) order (collection server id s)
          ≡ (if arrived n order then some blob else none) =
        ap (gather n (part_of blob n) order) c
        ∙ gather-covers n (part_of blob n) k.positive small order empty_collection
            (empty-Collecting n (part_of blob n)) (covers-nil n [] ∙ arrived-nil n k.positive) r
        ∙ ap (λ t. if t then some (span (part_of blob n) 1 n) else none) (covers-nil n order)
        ∙ ap (λ x. if arrived n order then some x else none)
            (span-fragment blob n (λ e. omega (arith, k.positive))) in
      get_message-gather env encrypt server id (clamp_fragment_size d) n blob cipher small_server
        small_id (clamp_fragment_size_le d).1 k small lacking m order s r
        (λ x e.
          subst (λ y. build_blob env.functors y ≡ built m)
            (if-inj (arrived n order) blob x (sym g ∙ e)) b)
      ∙ ap (λ o. elim o [ none ↦ none | some z ↦ some m ]) g
      ∙ if-some (arrived n order) blob m

  -- A message that `makeMessage` makes on one server, sent in fragments that all arrive in whatever
  -- order and however often at a server that does not have it, is returned there by `getMessage` as
  -- the same message, with the content it was made of and the number that the database gave it,
  -- where the two servers agree on the codec of its type and the message is not too long.
  pub make_message-get_message :
      (services : Services A) (type_id : ℕ) (Valid : A → Type 0) (c : A) (m : Message A)
      (sent : List ℕ) (b : Bytes) (order : List ℕ) (s : Receiver)
      → IsLawful services.codec Valid
      → Valid c
      → ((n : ℕ) → length (services.allocated n) ≡ n)
      → ((n : Message A) → services.put_local_message n ≡ some id)
      → services.own_id ≡ server
      → server ≢ 0
      → services.now < 2 ^ 32
      → type_id < 2 ^ 32
      → find type_id env.functors ≡ some services.codec.load
      → make_message services (fresh type_id c) ≡ made m sent
      → m.blob ≡ some b
      → (length b + clamp_fragment_size d - 1) / clamp_fragment_size d < 2 ^ 15
      → find id (server_fragments server s) ≡ none
      → InRange (parts b) order
      → arrived (parts b) order ≡ true
      → (delivered (get_message env (frames b order) s) ≡ some m)
        × (m.content ≡ c)
        × (m.server_id ≡ server)
        × (m.message_id ≡ id)
  make_message-get_message services type_id Valid c m sent b order s law v alloc put' own ne now ty
        f made' blob' few none' r all' =
      let (n, b', made₂, blob₂, built₂, content₂, server₂, id₂) =
        make_message-build_blob services type_id id (subst (λ x. x < 2 ^ 32) (sym own) small_server)
          now ty small_id (λ e. ne (sym own ∙ e)) Valid env.functors c law v alloc put' f in
      let e : n ≡ m = made_inj n m _ sent (sym made₂ ∙ made') in
      let q : b' ≡ b = some_inj b' b (sym blob₂ ∙ ap (λ (x : Message A). x.blob) e ∙ blob') in
      let t : build_blob env.functors b ≡ built m =
        ap (build_blob env.functors) (sym q) ∙ built₂ ∙ ap built e in
      (
        get_message-fragments b m order s (built-length env.functors m b t) few t none' r
            ∙ ap (λ x. if x then some m else none) all',
        ap (λ (x : Message A). x.content) (sym e) ∙ content₂,
        ap (λ (x : Message A). x.server_id) (sym e) ∙ server₂ ∙ own,
        ap (λ (x : Message A). x.message_id) (sym e) ∙ id₂,
      )
