-- ===== src/Actions/Announce.antt =====
-- `ClarificationMessage::int_process` of src/act_clarify.C: what a server does with a clarification
-- message. The database is its calls on a state of its own, and `none` is an exception.
use abacuscm.Prelude.{
  ℕ, Bool, true, false, Option, none, some, [], ◌∷◌, ◌==◌, if◌then◌else◌, Bytes, codes, nat_order,
  bytes_order, find,
}
use abacuscm.Decimal.{from_string}
use abacuscm.MessageBlock.{MessageBlock, Headers, new, set_header}
use abacuscm.Permissions.{PermissionTest, permission, base_test}
use abacuscm.ClientEventRegistry.{Client, Registry, broadcast_event}
use abacuscm.Wire.Clarification.{ClarificationMessage}
use abacuscm.Actions.{uint32_max}

-- The calls of `DbCon`, with their arguments in its order.
pub record ClarificationDb (D : Type 0) : Type 0 where
  pub get_clarification_request : ℕ → D → Headers
  pub put_clarification_request : ℕ → ℕ → ℕ → ℕ → ℕ → Bytes → D → Bool × D
  pub get_clarification : ℕ → D → Headers
  pub put_clarification : ℕ → ℕ → ℕ → ℕ → ℕ → ℕ → Bytes → D → Bool × D

abbrev pub permission_auth : PermissionTest
permission_auth = base_test (permission 0)

abbrev pub permission_see_all_clarification_requests : PermissionTest
permission_see_all_clarification_requests = base_test (permission 9)

abbrev pub permission_see_all_clarifications : PermissionTest
permission_see_all_clarifications = base_test (permission 10)

-- The loop that copies the attributes into the block.
unfoldable pub set_attributes : MessageBlock → Headers → MessageBlock
set_attributes mb [] = mb
set_attributes mb ((name, value) ∷ attributes) =
    set_attributes (set_header mb name value) attributes

-- `operator[]` of an attribute list.
unfoldable pub attribute : Bytes → Headers → Bytes
attribute name attributes = elim (find name attributes) [ none ↦ [] | some v ↦ v ]

unfoldable pub announce_request :
    (ℕ → Client) → ClarificationMessage → Headers → Registry → Option Bool × Registry
announce_request who m [] s = (some false, s)
announce_request who m (a ∷ req) s = (
  some true,
  broadcast_event who m.user_id permission_see_all_clarification_requests
      (set_attributes (new (codes "updateclarificationrequests")) (a ∷ req)) s,
)

-- `req` is the request that is answered, `c` the answer as the database has it.
unfoldable pub announce_answer :
    (ℕ → Client) → ClarificationMessage → Headers → Headers → Registry → Option Bool × Registry
announce_answer who m [] c s = (some false, s)
announce_answer who m (a ∷ req) c s =
    let notify = set_attributes (new (codes "updateclarifications")) c in
    if m.prob_id == 0
    then elim (from_string uint32_max (attribute (codes "user_id") (a ∷ req))) [
      | none ↦ (none, s)
      | some user ↦ (some true, broadcast_event who user permission_see_all_clarifications notify s)
    ]
    else (some true, broadcast_event who 0 permission_auth notify s)

-- The state of the database beside what the announcement returns.
abbrev pub beside : {D : Type 0} → D → Option Bool × Registry → Option Bool × D × Registry
beside d (b, s) = (b, d, s)

unfoldable pub process_request :
    {D : Type 0}
    → (ℕ → Client)
    → ClarificationDb D
    → ClarificationMessage
    → D
    → Registry
    → Option Bool × D × Registry
process_request who db m d s =
    let r =
      db.put_clarification_request m.clarification_request_id m.user_id m.prob_id m.time m.server_id
        m.text d in
    if r.0
    then beside r.1
        (announce_request who m (db.get_clarification_request m.clarification_request_id r.1) s)
    else (some false, r.1, s)

unfoldable pub process_answer :
    {D : Type 0}
    → (ℕ → Client)
    → ClarificationDb D
    → ClarificationMessage
    → D
    → Registry
    → Option Bool × D × Registry
process_answer who db m d s =
    let req = db.get_clarification_request m.clarification_request_id d in
    let r =
      db.put_clarification m.clarification_request_id m.clarification_id m.user_id m.time
        m.server_id m.prob_id m.text d in
    if r.0
    then beside r.1 (announce_answer who m req (db.get_clarification m.clarification_id r.1) s)
    else (some false, r.1, s)

unfoldable pub process_clarification :
    {D : Type 0}
    → (ℕ → Client)
    → Option (ClarificationDb D)
    → ClarificationMessage
    → D
    → Registry
    → Option Bool × D × Registry
process_clarification who none m d s = (some false, d, s)
process_clarification who (some db) m d s =
    if m.request == 0 then process_answer who db m d s else process_request who db m d s
