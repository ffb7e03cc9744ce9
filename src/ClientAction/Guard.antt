-- ===== src/ClientAction/Guard.antt =====
-- What stands between a request and its handler.
use abacuscm.Prelude.{
  ℕ, ◌≡◌, refl, ap, ◌∙◌, ◌≢◌, ◌⊎◌, inl, inr, true, some, arith, ◌==◌, Bool-cases, Option-cases,
  Bytes, codes, nat_order, bytes_order, find,
}
use abacuscm.Permissions.{PermissionSet, matches}
use abacuscm.MessageBlock.{MessageBlock, error, set_message_id, set_header, new}
use abacuscm.ClientAction.{Info, ActionMap, respond, process}

-- The request reaches a handler: the server has its number, the action is registered, and the
-- client's permissions pass its test.
pub record Admitted (World : Type 0) (own_id : ℕ) (ps : PermissionSet) (m : ActionMap World)
    (mb : MessageBlock) : Type 0 where
  pub initialised : own_id ≢ 0
  pub info : Info World
  pub registered : find mb.message m ≡ some info
  pub permitted : matches info.test ps ≡ some true

respond-Admitted :
    (World : Type 0) (own_id : ℕ) (ps : PermissionSet) (m : ActionMap World) (cc : ℕ)
    (mb : MessageBlock) (w : World)
    → (Admitted World own_id ps m mb)
      ⊎ ((text : Bytes) × (respond World own_id ps m cc mb w ≡ (some (error text), w)))
unfolding respond
respond-Admitted World own_id ps m cc mb w = elim (Bool-cases (own_id == 0)) [
  | inl z ↦
      inr (codes "Server has not yet been initialised - please try again later", rw (z, respond))
  | inr z ↦ elim (Option-cases (find mb.message m)) [
    | inl e ↦ inr (codes "No such action", rw (z, respond, e))
    | inr (info, e) ↦ elim (Option-cases (matches info.test ps)) [
      | inl q ↦ inr (codes "Action not permitted", rw (z, respond, e, q))
      | inr (b, q) ↦ elim (Bool-cases b) [
        | inr t ↦ inr (codes "Action not permitted", rw (z, respond, e, q, t))
        | inl t ↦ inl (record {
          initialised = ground arith;
          info = info;
          registered = e;
          permitted = q ∙ ap some t;
        })
      ]
    ]
  ]
]

-- A request that does not reach a handler, because the server has no number yet, the action is not
-- registered or the client's permissions fail its test, changes nothing: the client is sent an error
-- block with the request's message id.
pub process-Admitted :
    (World : Type 0) (own_id : ℕ) (ps : PermissionSet) (m : ActionMap World) (cc : ℕ)
    (mb : MessageBlock) (w : World)
    → (Admitted World own_id ps m mb)
      ⊎ (((process World own_id ps m cc mb w).1 ≡ w)
          × ((process World own_id ps m cc mb w).0.message ≡ codes "err")
          × ((process World own_id ps m cc mb w).0.message_id ≡ mb.message_id))
unfolding process error set_message_id set_header new
process-Admitted World own_id ps m cc mb w = elim (respond-Admitted World own_id ps m cc mb w) [
  | inl a ↦ inl a
  | inr (text, e) ↦ inr (rw (e, process) refl, rw (e, process) refl, refl)
]
