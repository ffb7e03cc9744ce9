-- ===== src/ClientEventRegistry/Delivery.antt =====
-- What deregistering achieves.
use abacuscm.Prelude.{
  ℕ, ◌≡◌, refl, not, ◌&&◌, none, some, List, [], ◌∷◌, arith, ◌==◌, Bytes, nat_order, bytes_order,
  find,
}
use abacuscm.ClientEventRegistry.{
  Client, Event, Registry, permits, discard, member, Event_deregister, deregister_all,
  deregister_client, is_client_registered,
}

member-discard : (x y : ℕ) (ys : List ℕ) → member x (discard y ys) ≡ (member x ys && not (y == x))
unfolding member discard
member-discard x y [] = refl
member-discard x y (z ∷ ys) = ground (arith, member-discard x y ys)

find-deregister_all :
    (who : ℕ → Client) (cc : ℕ) (name : Bytes) (m : List (Bytes × Event))
    → find name (deregister_all who cc m)
      ≡ elim (find name m) [ none ↦ none | some ev ↦ some (Event_deregister who cc ev).1 ]
unfolding deregister_all find
find-deregister_all who cc name [] = refl
find-deregister_all who cc name ((n, ev) ∷ m) = ground (arith, find-deregister_all who cc name m)

-- When a connection is deregistered, it is out of every event whose test it still passes, and it
-- stays where it was in every event whose test it does not pass any more.
pub deregister_client-is_client_registered :
    (who : ℕ → Client) (cc : ℕ) (name : Bytes) (s : Registry) (ev : Event)
    → find name s.eventmap ≡ some ev
    → is_client_registered name cc (deregister_client who cc s)
      ≡ (is_client_registered name cc s && not (permits ev.test (who cc)))
unfolding is_client_registered deregister_client Event_deregister
deregister_client-is_client_registered who cc name s ev e =
    ground (arith, find-deregister_all who cc name s.eventmap, member-discard cc cc ev.pool)
