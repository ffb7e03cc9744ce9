-- ===== src/Actions/Queue.antt =====
-- Triggering a message queues it, or nothing.
use abacuscm.Prelude.{◌≡◌, refl, ◌⊎◌, inl, inr, [], ◌∷◌, ◌++◌, Bool-cases, nat_order, bytes_order}
use abacuscm.MessageBlock.{MessageBlock, ok_reply}
use abacuscm.Actions.{Environment, World, Content, trigger_message, trigger_reply}

pub trigger_reply-queue :
    (env : Environment) (c : Content) (reply : MessageBlock) (w : World)
    → ((trigger_reply env c reply w).1.queue ≡ w.queue)
      ⊎ ((trigger_reply env c reply w).1.queue ≡ w.queue ++ c ∷ [])
unfolding trigger_reply
trigger_reply-queue env c reply w = elim (Bool-cases (env.makes c)) [
  | inl q ↦ inr (rw (q, trigger_reply) refl)
  | inr q ↦ inl (rw (q, trigger_reply) refl)
]

pub trigger_message-queue :
    (env : Environment) (c : Content) (w : World)
    → ((trigger_message env c w).1.queue ≡ w.queue)
      ⊎ ((trigger_message env c w).1.queue ≡ w.queue ++ c ∷ [])
unfolding trigger_message
trigger_message-queue env c w = trigger_reply-queue env c ok_reply w
