-- ===== src/ClientEventRegistry.antt =====
-- src/clienteventregistry.C and include/clienteventregistry.h: who is told of what. A
-- `ClientConnection*` is a number, and `who` gives what the registry asks of the object at the time
-- of the call. Each method holds its lock throughout, so methods are steps on the state. `sent` logs
-- the calls of `sendMessageBlock`. A permission test that faults counts as one that fails: the tests
-- that the program registers name real permissions (`Permissions.Granted.matches-holds`).
pub mod Delivery
pub mod Sessions
use abacuscm.Prelude.{
  ℕ, zero, suc, ◌+◌, ◌-◌, ◌*◌, ◌/◌, ◌%◌, ◌^◌, ◌≤◌, ◌<◌, String, ◌≡◌, refl, sym, ap, ◌∙◌, subst, ◌≢◌,
  ◌↔◌, ◌⊎◌, inl, inr, Bool, true, false, not, ◌&&◌, ◌||◌, Option, none, some, List, [], ◌∷◌, ◌++◌,
  map, append-nil, append_assoc, arith, ltb, leb, ◌==◌, if◌then◌else◌, ltb→lt, lt→ltb, leb→le,
  ==_iff, ==_refl, ==_ne, Bool-cases, Option-cases, length, take, drop, length-append,
  take-length_append, take-length, take-append_ge, take-append_le, drop-length_append,
  take-append_drop, length-take, length-drop, All, All-append, list-cases, Bytes, codes, eq_bytes,
  lt_bytes, Lacks, eq_bytes_refl, eq_bytes→eq, eq_bytes_iff, lt_bytes-asymm, lt_bytes_irrefl,
  lt_bytes_trans, lt_bytes-connex, StrictOrder, nat_order, bytes_order, same, find, put, erase,
  same_refl, same→eq, find-put, find-erase, Below, IsSorted, put-Below, put-IsSorted,
  erase-IsSorted,
}
use abacuscm.Permissions.{PermissionSet, PermissionTest, matches}
use abacuscm.MessageBlock.{MessageBlock}

pub record Client : Type 0 where
  pub user_id : ℕ
  pub group_id : ℕ
  pub permissions : PermissionSet

-- `ClientEventRegistry::Event`.
pub record Event : Type 0 where
  pub pool : List ℕ
  pub test : PermissionTest

pub record Registry : Type 0 where
  pub eventmap : List (Bytes × Event)
  pub clients : List (ℕ × ℕ)
  pub sent : List (ℕ × MessageBlock)

unfoldable pub permits : PermissionTest → Client → Bool
permits pt c = elim (matches pt c.permissions) [ none ↦ false | some b ↦ b ]

-- `std::set::insert`
unfoldable pub add : ℕ → List ℕ → List ℕ
add x [] = x ∷ []
add x (y ∷ ys) = if ltb x y then x ∷ y ∷ ys else if x == y then y ∷ ys else y ∷ add x ys

-- `std::set::erase`
unfoldable pub discard : ℕ → List ℕ → List ℕ
discard x [] = []
discard x (y ∷ ys) = if x == y then discard x ys else y ∷ discard x ys

unfoldable pub member : ℕ → List ℕ → Bool
member x [] = false
member x (y ∷ ys) = (x == y) || member x ys

-- `std::multimap::insert`: behind the entries of the same key.
unfoldable pub add_client : ℕ → ℕ → List (ℕ × ℕ) → List (ℕ × ℕ)
add_client user cc [] = (user, cc) ∷ []
add_client user cc ((u, c) ∷ m) =
    if ltb user u then (user, cc) ∷ (u, c) ∷ m else (u, c) ∷ add_client user cc m

-- `none` is the null pointer.
unfoldable pub register_client : (ℕ → Client) → Option ℕ → Registry → Registry
register_client who none s = s
register_client who (some cc) s = record s { clients = add_client (who cc).user_id cc s.clients }

unfoldable pub Event_register : (ℕ → Client) → ℕ → Event → Bool × Event
Event_register who cc ev =
    if permits ev.test (who cc) then (true, record ev { pool = add cc ev.pool }) else (false, ev)

unfoldable pub Event_deregister : (ℕ → Client) → ℕ → Event → Bool × Event
Event_deregister who cc ev =
    if permits ev.test (who cc)
    then (true, record ev { pool = discard cc ev.pool })
    else (false, ev)

unfoldable pub register_for_event : (ℕ → Client) → Bytes → ℕ → Registry → Bool × Registry
register_for_event who name cc s = elim (find name s.eventmap) [
  | none ↦ (false, s)
  | some ev ↦
      let r = Event_register who cc ev in (r.0, record s { eventmap = put name r.1 s.eventmap })
]

unfoldable pub deregister_from_event : (ℕ → Client) → Bytes → ℕ → Registry → Bool × Registry
deregister_from_event who name cc s = elim (find name s.eventmap) [
  | none ↦ (false, s)
  | some ev ↦
      let r = Event_deregister who cc ev in (r.0, record s { eventmap = put name r.1 s.eventmap })
]

-- The first loop of `deregisterClient(cc)`.
unfoldable pub deregister_all : (ℕ → Client) → ℕ → List (Bytes × Event) → List (Bytes × Event)
deregister_all who cc [] = []
deregister_all who cc ((name, ev) ∷ m) =
    (name, (Event_deregister who cc ev).1) ∷ deregister_all who cc m

-- The second loop: the entries of this user that are this connection.
unfoldable pub remove_client : ℕ → ℕ → List (ℕ × ℕ) → List (ℕ × ℕ)
remove_client user cc [] = []
remove_client user cc ((u, c) ∷ m) =
    if (u == user) && (c == cc) then remove_client user cc m else (u, c) ∷ remove_client user cc m

unfoldable pub deregister_client : (ℕ → Client) → ℕ → Registry → Registry
deregister_client who cc s = record s {
  eventmap = deregister_all who cc s.eventmap;
  clients = remove_client (who cc).user_id cc s.clients;
}

unfoldable pub is_client_registered : Bytes → ℕ → Registry → Bool
is_client_registered name cc s = elim (find name s.eventmap) [
  | none ↦ false
  | some ev ↦ member cc ev.pool
]

unfoldable pub register_event : Bytes → PermissionTest → Registry → Registry
register_event name pt s = elim (find name s.eventmap) [
  | some ev ↦ s
  | none ↦ record s { eventmap = put name (record { pool = []; test = pt }) s.eventmap }
]

unfoldable pub send_all : List ℕ → MessageBlock → List (ℕ × MessageBlock)
send_all [] mb = []
send_all (cc ∷ ccs) mb = (cc, mb) ∷ send_all ccs mb

-- The members of a pool that belong to a group.
unfoldable pub of_group : (ℕ → Client) → ℕ → List ℕ → List ℕ
of_group who group [] = []
of_group who group (cc ∷ ccs) =
    if (who cc).group_id == group then cc ∷ of_group who group ccs else of_group who group ccs

unfoldable pub trigger_event : Bytes → MessageBlock → Registry → Registry
trigger_event name mb s = elim (find name s.eventmap) [
  | none ↦ s
  | some ev ↦ record s { sent = s.sent ++ send_all ev.pool mb }
]

unfoldable pub trigger_group_event : (ℕ → Client) → Bytes → MessageBlock → ℕ → Registry → Registry
trigger_group_event who name mb group s = elim (find name s.eventmap) [
  | none ↦ s
  | some ev ↦ record s { sent = s.sent ++ send_all (of_group who group ev.pool) mb }
]

-- The connections that `broadcastEvent` picks.
unfoldable pub audience : (ℕ → Client) → ℕ → PermissionTest → List (ℕ × ℕ) → List ℕ
audience who user pt [] = []
audience who user pt ((u, cc) ∷ m) =
    if (u == user) || permits pt (who cc)
    then cc ∷ audience who user pt m
    else audience who user pt m

unfoldable pub broadcast_event :
    (ℕ → Client) → ℕ → PermissionTest → MessageBlock → Registry → Registry
broadcast_event who user pt mb s = record s {
  sent = s.sent ++ send_all (audience who user pt s.clients) mb;
}

unfoldable pub of_user : ℕ → List (ℕ × ℕ) → List ℕ
of_user user [] = []
of_user user ((u, cc) ∷ m) = if u == user then cc ∷ of_user user m else of_user user m

unfoldable pub send_message : ℕ → MessageBlock → Registry → Registry
send_message user mb s = record s { sent = s.sent ++ send_all (of_user user s.clients) mb }
