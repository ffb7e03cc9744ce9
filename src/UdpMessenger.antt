-- ===== src/UdpMessenger.antt =====
-- src/udpmessenger.C: the delays between frames, the checksum, and how a message is cut into
-- fragments. Each number is a `uint32_t` where nothing else is said. Sockets, encryption and the
-- order of sending, which is random, are left out.
pub mod Backoff
pub mod Tiling
pub mod Frames
pub mod Receive
pub mod Collections
pub mod Reassembly
pub mod Gather
pub mod Bounds
pub mod Packets
pub mod Delivery
pub mod Transfer
use abacuscm.Prelude.{
  ℕ, zero, suc, ◌+◌, ◌-◌, ◌*◌, ◌/◌, ◌%◌, ◌^◌, ◌≤◌, ◌<◌, String, ◌≡◌, refl, sym, ap, ◌∙◌, subst, ◌≢◌,
  ◌↔◌, ◌⊎◌, inl, inr, Bool, true, false, not, ◌&&◌, ◌||◌, Option, none, some, List, [], ◌∷◌, ◌++◌,
  map, append-nil, append_assoc, arith, ltb, leb, ◌==◌, if◌then◌else◌, ltb→lt, lt→ltb, leb→le,
  ==_iff, ==_refl, ==_ne, Bool-cases, Option-cases, length, take, drop, length-append,
  take-length_append, take-length, take-append_ge, take-append_le, drop-length_append,
  take-append_drop, length-take, length-drop, All, All-append, list-cases, Bytes, codes, eq_bytes,
  lt_bytes, Lacks, eq_bytes_refl, eq_bytes→eq, eq_bytes_iff, lt_bytes-asymm, lt_bytes_irrefl,
  lt_bytes_trans, lt_bytes-connex, StrictOrder, nat_order, bytes_order, same, find, put, erase,
  same_refl, same→eq, find-put, find-erase, Below, IsSorted, put-Below, put-IsSorted,
  erase-IsSorted,
}

-- The settings of `initialise`, and `_backoffmap`.
pub record Messenger : Type 0 where
  pub init_delay : ℕ
  pub min_delay : ℕ
  pub max_delay : ℕ
  pub backoffmap : List (ℕ × ℕ)

-- The corrections in `initialise`.
unfoldable pub clamp_min : ℕ → ℕ
clamp_min d = if ltb d 100 then 100 else d

unfoldable pub clamp_max : ℕ → ℕ → ℕ
clamp_max least d = if ltb d (1000 * least % 2 ^ 32) then 1000 * least % 2 ^ 32 else d

unfoldable pub clamp_init : ℕ → ℕ → ℕ → ℕ
clamp_init least most d = if ltb d least || ltb most d then least / 2 + most / 2 else d

unfoldable pub initialise : ℕ → ℕ → ℕ → Messenger
initialise init least most =
    let min_delay : ℕ = clamp_min least in
    let max_delay : ℕ = clamp_max min_delay most in
    record {
      init_delay = clamp_init min_delay max_delay init;
      min_delay = min_delay;
      max_delay = max_delay;
      backoffmap = [];
    }

-- What `getBackoff` returns, and the state that it leaves.
unfoldable pub get_backoff : ℕ → Messenger → ℕ × Messenger
get_backoff server s = elim (find server s.backoffmap) [
  | none ↦ (s.init_delay, record s { backoffmap = put server s.init_delay s.backoffmap })
  | some d ↦
      let doubled : ℕ = d * 2 % 2 ^ 32 in
      let next : ℕ = if ltb s.max_delay doubled then s.max_delay else doubled in
      (d, record s { backoffmap = put server next s.backoffmap })
]

unfoldable pub down_backoff : ℕ → Messenger → Messenger
down_backoff server s = elim (find server s.backoffmap) [
  | none ↦ s
  | some d ↦
      let next : ℕ = if ltb (d / 2) s.min_delay then s.min_delay else d / 2 in
      record s { backoffmap = put server next s.backoffmap }
]

-- `numfrags`, a `uint16_t`: the number of fragments of at most `most` bytes.
unfoldable pub num_fragments : ℕ → ℕ → ℕ
num_fragments most len = (len + most - 1) / most % 2 ^ 16

-- Where fragment `i + 1` starts, and how long it is, for the base size and the number of fragments
-- that are one byte longer.
unfoldable pub fragment_start : ℕ → ℕ → ℕ → ℕ
fragment_start base large i = base * i + (if ltb i large then i else large)

unfoldable pub fragment_length : ℕ → ℕ → ℕ → ℕ
fragment_length base large i = if ltb i large then base + 1 else base

unfoldable pub fragment : ℕ → ℕ → Bytes → ℕ → Bytes
fragment base large data' i =
    take (fragment_length base large i) (drop (fragment_start base large i) data')

-- The data of the first `n` fragments one behind the other, as `getMessage` puts them together.
unfoldable pub assembled : ℕ → ℕ → Bytes → ℕ → Bytes
assembled base large data' zero = []
assembled base large data' (suc n) = assembled base large data' n ++ fragment base large data' n
