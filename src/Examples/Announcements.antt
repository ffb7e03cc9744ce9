-- ===== src/Examples/Announcements.antt =====
-- The notice of a clarification at a concrete input.
use abacuscm.Prelude.{
  ℕ, suc, true, false, some, [], ◌∷◌, ◌==◌, if◌then◌else◌, codes, nat_order, bytes_order,
}
use abacuscm.MessageBlock.{Headers}
use abacuscm.Permissions.{replicate}
use abacuscm.ClientEventRegistry.{Client, Registry}
use abacuscm.Wire.Clarification.{ClarificationMessage}
use abacuscm.Actions.Announce.{ClarificationDb, process_clarification}
use abacuscm.Actions.Concerned.{Concerned, SentTo, process_clarification-Concerned}

-- The user 7 has asked, and every message can be stored.
abbrev asked : Headers
asked = (codes "question", codes "Why?") ∷ (codes "user_id", codes "7") ∷ []

abbrev database : ClarificationDb ℕ
database = record {
  get_clarification_request = λ id d. asked;
  put_clarification_request = λ id user prob time server text d. (true, suc d);
  get_clarification = λ id d. (codes "answer", codes "Because.") ∷ [];
  put_clarification = λ request id user time server public text d. (true, suc d);
}

-- The connection 3 is one of the user 7, and the connection 4 of the user 8.
abbrev clients : ℕ → Client
clients cc = record {
  user_id = if cc == 3 then 7 else 8;
  group_id = 1;
  permissions = replicate 24 false;
}

abbrev registry : Registry
registry = record { eventmap = []; clients = (7, 3) ∷ (8, 4) ∷ []; sent = [] }

abbrev private_answer : ClarificationMessage
private_answer = record {
  request = 0;
  clarification_request_id = 19;
  clarification_id = 35;
  user_id = 8;
  prob_id = 0;
  time = 1000;
  server_id = 3;
  text = codes "Because.";
}

process_clarification-Concerned_example :
    SentTo
      (Concerned clients private_answer asked ((7, 3) ∷ (8, 4) ∷ []))
      registry
      (process_clarification clients (some database) private_answer 0 registry).2
process_clarification-Concerned_example =
    process_clarification-Concerned clients database private_answer 0 registry
