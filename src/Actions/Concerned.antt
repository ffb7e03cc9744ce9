-- ===== src/Actions/Concerned.antt =====
-- Who is told of a clarification.
use abacuscm.Prelude.{
  ℕ, ◌≡◌, refl, sym, inl, inr, true, false, some, List, [], ◌∷◌, ◌++◌, append-nil, arith, ◌==◌,
  Bool-cases, Option-cases, All, codes, nat_order, bytes_order,
}
use abacuscm.Decimal.{from_string}
use abacuscm.MessageBlock.{MessageBlock, Headers}
use abacuscm.Permissions.{PermissionTest}
use abacuscm.ClientEventRegistry.{
  Client, Registry, permits, member, of_user, audience, send_all, broadcast_event,
}
use abacuscm.Wire.Clarification.{ClarificationMessage}
use abacuscm.Actions.{uint32_max}
use abacuscm.Actions.Announce.{
  ClarificationDb, permission_auth, permission_see_all_clarification_requests,
  permission_see_all_clarifications, attribute, announce_request, announce_answer, process_request,
  process_answer, process_clarification,
}

-- What makes a notice of the message `m` the business of the connection `cc`, where `req` is the
-- request that it answers.
pub data Concerned (who : ℕ → Client) (m : ClarificationMessage) (req : Headers)
    (clients : List (ℕ × ℕ)) (cc : ℕ) : Type 0 where
  -- It is a request, and the connection is one of the user who makes it.
  by_asking :
      (m.request == 0) ≡ false
      → member cc (of_user m.user_id clients) ≡ true
      → Concerned who m req clients cc
  by_seeing_requests :
      (m.request == 0) ≡ false
      → permits permission_see_all_clarification_requests (who cc) ≡ true
      → Concerned who m req clients cc
  -- It is an answer to the user whose request the database has.
  by_being_answered :
      (user : ℕ)
      → (m.request == 0) ≡ true
      → from_string uint32_max (attribute (codes "user_id") req) ≡ some user
      → member cc (of_user user clients) ≡ true
      → Concerned who m req clients cc
  by_seeing_answers :
      (m.request == 0) ≡ true
      → permits permission_see_all_clarifications (who cc) ≡ true
      → Concerned who m req clients cc
  -- It is a public answer.
  by_publication :
      (m.request == 0) ≡ true → (m.prob_id == 0) ≡ false → Concerned who m req clients cc

member-of_user :
    (cc user u c : ℕ) (m : List (ℕ × ℕ))
    → member cc (of_user user m) ≡ true
    → member cc (of_user user ((u, c) ∷ m)) ≡ true
unfolding member of_user
member-of_user cc user u c m h = ground (arith, h)

head-of_user :
    (user u c : ℕ) (m : List (ℕ × ℕ))
    → (u == user) ≡ true
    → member c (of_user user ((u, c) ∷ m)) ≡ true
unfolding member of_user
head-of_user user u c m h = ground (arith, h)

audience-All :
    (P : ℕ → Type 0) (who : ℕ → Client) (user : ℕ) (pt : PermissionTest) (m : List (ℕ × ℕ))
    → ((cc : ℕ) → member cc (of_user user m) ≡ true → P cc)
    → ((cc : ℕ) → permits pt (who cc) ≡ true → P cc)
    → All P (audience who user pt m)
unfolding audience
audience-All P who user pt [] mine seen = tt
audience-All P who user pt ((u, c) ∷ m) mine seen =
    let rest : All P (audience who user pt m) =
      audience-All P who user pt m (λ cc h. mine cc (member-of_user cc user u c m h)) seen in
    elim (Bool-cases (u == user)) [
      | inl q ↦ rw (q, audience) (mine c (head-of_user user u c m q), rest)
      | inr q ↦ elim (Bool-cases (permits pt (who c))) [
        | inl p ↦ rw (q, p, audience) (seen c p, rest)
        | inr p ↦ rw (q, p, audience) rest
      ]
    ]

send_all-All :
    (P : ℕ → Type 0) (ccs : List ℕ) (mb : MessageBlock)
    → All P ccs
    → All (λ (e : ℕ × MessageBlock). P e.0) (send_all ccs mb)
unfolding send_all
send_all-All P [] mb h = tt
send_all-All P (c ∷ ccs) mb h = (h.0, send_all-All P ccs mb h.1)

-- What is sent between two states of the registry goes to connections with a property.
pub SentTo : (ℕ → Type 0) → Registry → Registry → Type 0
SentTo P s s' =
    (sent : List (ℕ × MessageBlock)) × (s'.sent ≡ s.sent ++ sent)
    × All (λ (e : ℕ × MessageBlock). P e.0) sent

SentTo-refl : (P : ℕ → Type 0) (s : Registry) → SentTo P s s
unfolding SentTo
SentTo-refl P s = ([], sym (append-nil s.sent), tt)

broadcast_event-SentTo :
    (P : ℕ → Type 0) (who : ℕ → Client) (user : ℕ) (pt : PermissionTest) (mb : MessageBlock)
    (s : Registry)
    → ((cc : ℕ) → member cc (of_user user s.clients) ≡ true → P cc)
    → ((cc : ℕ) → permits pt (who cc) ≡ true → P cc)
    → SentTo P s (broadcast_event who user pt mb s)
unfolding SentTo broadcast_event
broadcast_event-SentTo P who user pt mb s mine seen = (
  send_all (audience who user pt s.clients) mb,
  refl,
  send_all-All P (audience who user pt s.clients) mb
      (audience-All P who user pt s.clients mine seen),
)

announce_request-SentTo :
    (who : ℕ → Client) (m : ClarificationMessage) (req stored : Headers) (s : Registry)
    → (m.request == 0) ≡ false
    → SentTo (Concerned who m req s.clients) s (announce_request who m stored s).1
unfolding announce_request
announce_request-SentTo who m req [] s q = SentTo-refl (Concerned who m req s.clients) s
announce_request-SentTo who m req (a ∷ stored) s q =
    broadcast_event-SentTo (Concerned who m req s.clients) who m.user_id
      permission_see_all_clarification_requests _ s (λ cc h. by_asking q h)
      (λ cc h. by_seeing_requests q h)

announce_answer-SentTo :
    (who : ℕ → Client) (m : ClarificationMessage) (req c : Headers) (s : Registry)
    → (m.request == 0) ≡ true
    → SentTo (Concerned who m req s.clients) s (announce_answer who m req c s).1
unfolding announce_answer
announce_answer-SentTo who m [] c s q = SentTo-refl (Concerned who m [] s.clients) s
announce_answer-SentTo who m (a ∷ req) c s q = elim (Bool-cases (m.prob_id == 0)) [
  | inr p ↦
      rw (p, announce_answer)
        (broadcast_event-SentTo (Concerned who m (a ∷ req) s.clients) who 0 permission_auth _ s
          (λ cc h. by_publication q p) (λ cc h. by_publication q p))
  | inl p ↦ elim (Option-cases (from_string uint32_max (attribute (codes "user_id") (a ∷ req)))) [
    | inl e ↦ rw (p, e, announce_answer) (SentTo-refl (Concerned who m (a ∷ req) s.clients) s)
    | inr (user, e) ↦
        rw (p, e, announce_answer)
          (broadcast_event-SentTo (Concerned who m (a ∷ req) s.clients) who user
            permission_see_all_clarifications _ s (λ cc h. by_being_answered user q e h)
            (λ cc h. by_seeing_answers q h))
  ]
]

process_request-SentTo :
    {D : Type 0} (who : ℕ → Client) (db : ClarificationDb D) (m : ClarificationMessage) (d : D)
    (req : Headers) (s : Registry)
    → (m.request == 0) ≡ false
    → SentTo (Concerned who m req s.clients) s (process_request who db m d s).2
unfolding process_request
process_request-SentTo who db m d req s q =
    let r =
      db.put_clarification_request m.clarification_request_id m.user_id m.prob_id m.time m.server_id
        m.text d in
    elim (Bool-cases r.0) [
      | inl t ↦
          rw (t, process_request)
            (announce_request-SentTo who m req
              (db.get_clarification_request m.clarification_request_id r.1) s q)
      | inr f ↦ rw (f, process_request) (SentTo-refl (Concerned who m req s.clients) s)
    ]

process_answer-SentTo :
    {D : Type 0} (who : ℕ → Client) (db : ClarificationDb D) (m : ClarificationMessage) (d : D)
    (s : Registry)
    → (m.request == 0) ≡ true
    → SentTo
        (Concerned who m (db.get_clarification_request m.clarification_request_id d) s.clients)
        s
        (process_answer who db m d s).2
unfolding process_answer
process_answer-SentTo who db m d s q =
    let req = db.get_clarification_request m.clarification_request_id d in
    let r =
      db.put_clarification m.clarification_request_id m.clarification_id m.user_id m.time
        m.server_id m.prob_id m.text d in
    elim (Bool-cases r.0) [
      | inl t ↦
          rw (t, process_answer)
            (announce_answer-SentTo who m req (db.get_clarification m.clarification_id r.1) s q)
      | inr f ↦ rw (f, process_answer) (SentTo-refl (Concerned who m req s.clients) s)
    ]

-- Processing a clarification message sends only to connections that it concerns: a request goes to
-- those of the user who asks and to those who may see all requests; an answer that is not public
-- goes to those of the user whose request it answers, as the database has it before the answer, and
-- to those who may see all clarifications.
pub process_clarification-Concerned :
    {D : Type 0} (who : ℕ → Client) (db : ClarificationDb D) (m : ClarificationMessage) (d : D)
    (s : Registry)
    → SentTo
        (Concerned who m (db.get_clarification_request m.clarification_request_id d) s.clients)
        s
        (process_clarification who (some db) m d s).2
unfolding process_clarification
process_clarification-Concerned who db m d s = elim (Bool-cases (m.request == 0)) [
  | inl q ↦ rw (q, process_clarification) (process_answer-SentTo who db m d s q)
  | inr q ↦
      rw (q, process_clarification)
        (process_request-SentTo who db m d
          (db.get_clarification_request m.clarification_request_id d) s q)
]
