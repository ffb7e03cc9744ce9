-- ===== src/ClientEventRegistry/Sessions.antt =====
-- Who receives what is sent to a user, after any registrations and deregistrations.
use abacuscm.Prelude.{
  ℕ, ◌≡◌, refl, ap, ◌∙◌, Bool, true, false, not, ◌&&◌, ◌||◌, Option, none, some, List, [], ◌∷◌,
  ◌++◌, arith, ◌==◌, if◌then◌else◌, nat_order, bytes_order,
}
use abacuscm.MessageBlock.{MessageBlock}
use abacuscm.ClientEventRegistry.{
  Client, Registry, member, add_client, of_user, remove_client, register_client, deregister_client,
  send_all, send_message,
}

-- A call that changes the map of the connections, with what the connections are at that time.
pub data Step : Type 0 where
  registers : (ℕ → Client) → Option ℕ → Step
  deregisters : (ℕ → Client) → ℕ → Step

-- The registry after the steps, of which the last one is first.
unfoldable pub after : List Step → Registry
after [] = record { eventmap = []; clients = []; sent = [] }
after (registers who c ∷ steps) = register_client who c (after steps)
after (deregisters who c ∷ steps) = deregister_client who c (after steps)

-- Whether the last step about the connection, made while it was this user's, registered it.
unfoldable pub is_live : ℕ → ℕ → List Step → Bool
is_live user conn [] = false
is_live user conn (registers who none ∷ steps) = is_live user conn steps
is_live user conn (registers who (some c) ∷ steps) =
    if (c == conn) && ((who c).user_id == user) then true else is_live user conn steps
is_live user conn (deregisters who c ∷ steps) =
    if (c == conn) && ((who c).user_id == user) then false else is_live user conn steps

-- Whether something was sent to the connection.
unfoldable pub receives : ℕ → List (ℕ × MessageBlock) → Bool
receives conn [] = false
receives conn ((c, mb) ∷ sent) = (c == conn) || receives conn sent

receives-send_all :
    (conn : ℕ) (mb : MessageBlock) (ccs : List ℕ)
    → receives conn (send_all ccs mb) ≡ member conn ccs
unfolding receives send_all member
receives-send_all conn mb [] = refl
receives-send_all conn mb (c ∷ ccs) = ground (arith, receives-send_all conn mb ccs)

member-add_client :
    (user conn u c : ℕ) (m : List (ℕ × ℕ))
    → member conn (of_user user (add_client u c m))
      ≡ (((c == conn) && (u == user)) || member conn (of_user user m))
unfolding member of_user add_client
member-add_client user conn u c [] = ground arith
member-add_client user conn u c ((v, d) ∷ m) = ground (arith, member-add_client user conn u c m)

member-remove_client :
    (user conn u c : ℕ) (m : List (ℕ × ℕ))
    → member conn (of_user user (remove_client u c m))
      ≡ (not ((c == conn) && (u == user)) && member conn (of_user user m))
unfolding member of_user remove_client
member-remove_client user conn u c [] = ground arith
member-remove_client user conn u c ((v, d) ∷ m) =
    ground (arith, member-remove_client user conn u c m)

member-after :
    (user conn : ℕ) (steps : List Step)
    → member conn (of_user user (after steps).clients) ≡ is_live user conn steps
unfolding after is_live register_client deregister_client member of_user
member-after user conn [] = refl
member-after user conn (registers who none ∷ steps) = member-after user conn steps
member-after user conn (registers who (some c) ∷ steps) = ground (
  arith,
  member-add_client user conn (who c).user_id c (after steps).clients,
  member-after user conn steps,
)
member-after user conn (deregisters who c ∷ steps) = ground (
  arith,
  member-remove_client user conn (who c).user_id c (after steps).clients,
  member-after user conn steps,
)

sent-after : (steps : List Step) → (after steps).sent ≡ []
unfolding after register_client deregister_client
sent-after [] = refl
sent-after (registers who none ∷ steps) = sent-after steps
sent-after (registers who (some c) ∷ steps) = sent-after steps
sent-after (deregisters who c ∷ steps) = sent-after steps

-- After any registrations and deregistrations of connections, whose users may change in between, what
-- is sent to a user reaches exactly the connections for which the last of these calls that was made
-- while the connection was this user's is a registration.
pub send_message-is_live :
    (user conn : ℕ) (mb : MessageBlock) (steps : List Step)
    → receives conn (send_message user mb (after steps)).sent ≡ is_live user conn steps
unfolding send_message
send_message-is_live user conn mb steps =
    ap (λ l. receives conn (l ++ send_all (of_user user (after steps).clients) mb))
      (sent-after steps)
    ∙ receives-send_all conn mb (of_user user (after steps).clients)
    ∙ member-after user conn steps
