-- ===== src/ClientAction.antt =====
-- src/clientaction.C and include/clientaction.h: a request from a client meets its handler. The rest
-- of the server is `World`; a handler may change it, and answers or, where it returns a null
-- pointer, does not.
pub mod Guard
use abacuscm.Prelude.{
  ℕ, zero, suc, ◌+◌, ◌-◌, ◌*◌, ◌/◌, ◌%◌, ◌^◌, ◌≤◌, ◌<◌, String, ◌≡◌, refl, sym, ap, ◌∙◌, subst, ◌≢◌,
  ◌↔◌, ◌⊎◌, inl, inr, Bool, true, false, not, ◌&&◌, ◌||◌, Option, none, some, List, [], ◌∷◌, ◌++◌,
  map, append-nil, append_assoc, arith, ltb, leb, ◌==◌, if◌then◌else◌, ltb→lt, lt→ltb, leb→le,
  ==_iff, ==_refl, ==_ne, Bool-cases, Option-cases, length, take, drop, length-append,
  take-length_append, take-length, take-append_ge, take-append_le, drop-length_append,
  take-append_drop, length-take, length-drop, All, All-append, list-cases, Bytes, codes, eq_bytes,
  lt_bytes, Lacks, eq_bytes_refl, eq_bytes→eq, eq_bytes_iff, lt_bytes-asymm, lt_bytes_irrefl,
  lt_bytes_trans, lt_bytes-connex, StrictOrder, nat_order, bytes_order, same, find, put, erase,
  same_refl, same→eq, find-put, find-erase, Below, IsSorted, put-Below, put-IsSorted,
  erase-IsSorted,
}
use abacuscm.Permissions.{PermissionSet, PermissionTest, matches}
use abacuscm.MessageBlock.{MessageBlock, set_message_id, error}

module _ (World : Type 0) where
  -- `ClientAction::int_process`: a handler of the derived class.
  abbrev pub Handler : Type 0
  Handler = ℕ → MessageBlock → World → Option MessageBlock × World

  -- `ClientAction::Info`
  pub record Info : Type 0 where
    pub test : PermissionTest
    pub action : Handler

  abbrev pub ActionMap : Type 0
  ActionMap = List (Bytes × Info)

  unfoldable pub register_action : Bytes → PermissionTest → Handler → ActionMap → ActionMap
  register_action name pt h m = put name (record { test = pt; action = h }) m

  -- The reply that the branches of `process` make, `none` where it stays null. A test that faults
  -- counts as one that fails (`Permissions.Granted.matches-holds` says when none does).
  unfoldable pub respond :
      ℕ → PermissionSet → ActionMap → ℕ → MessageBlock → World → Option MessageBlock × World
  respond own_id ps m cc mb w =
      if own_id == 0
      then (some (error (codes "Server has not yet been initialised - please try again later")), w)
      else elim (find mb.message m) [
        | none ↦ (some (error (codes "No such action")), w)
        | some info ↦ elim (matches info.test ps) [
          | some true ↦ info.action cc mb w
          | some false ↦ (some (error (codes "Action not permitted")), w)
          | none ↦ (some (error (codes "Action not permitted")), w)
        ]
      ]

  -- The reply that is sent to the client, and the world that is left.
  unfoldable pub process :
      ℕ → PermissionSet → ActionMap → ℕ → MessageBlock → World → MessageBlock × World
  process own_id ps m cc mb w =
      let r = respond own_id ps m cc mb w in
      let reply : MessageBlock = elim r.0 [
        | none ↦ error (codes "Internal error - no reply generated by " ++ mb.message)
        | some b ↦ b
      ] in
      (set_message_id reply mb.message_id, r.1)
