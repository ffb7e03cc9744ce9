-- ===== src/Examples/Handlers.antt =====
-- The theorems on marks and on the client actions at concrete inputs, where their hypotheses hold.
use abacuscm.Prelude.{
  ◌≡◌, refl, ◌≢◌, true, none, some, [], ◌∷◌, ◌++◌, arith, length, Bytes, codes, lt_bytes, nat_order,
  bytes_order, find,
}
use abacuscm.Wire.{fault, loaded, put_word}
use abacuscm.Message.{zeros}
use abacuscm.Decimal.{
  from_string, from_unspaced, skip_space, is_number, all_digits, digits_value, is_digit, is_space,
  to_string, emit,
}
use abacuscm.MessageBlock.{MessageBlock, header, has_attribute}
use abacuscm.Permissions.{replicate, index, get_elem?}
use abacuscm.ClientEventRegistry.{Client}
use abacuscm.Marking.{
  MarkMessage, storage_required, store, load, files_size, put_text, store_files, add_file,
}
use abacuscm.Marking.Safety.{load_in_bounds}
use abacuscm.Marking.RoundTrip.{IsMark, load-store_mark}
use abacuscm.Actions.{Environment, World, granted}
use abacuscm.Actions.PlaceMark.{
  place_mark, mark_legal, parse_description, c_str, number_field, span_digits, text_field,
  all_printable, slice, file_name, collect_files, new_mark, finish_mark,
}
use abacuscm.Actions.Marks.{Placed, place_mark-Authorised}
use abacuscm.Actions.Submit.{submit}
use abacuscm.Actions.Submit.Accepted.{Queued, submit-IsAccepted}
use abacuscm.Examples.Core.{contest}

-- Loading a buffer that ends inside a word.
load_in_bounds_example : load (7 ∷ 0 ∷ 0 ∷ []) ≢ fault
load_in_bounds_example = load_in_bounds (7 ∷ 0 ∷ 0 ∷ [])

abbrev mark : MarkMessage
mark = record {
  submission_id = 19;
  marker = 4;
  result = 1;
  time = 1000;
  server_id = 1;
  comment = codes "wrong";
  files = record { name = codes "out"; content = 1 ∷ 0 ∷ 2 ∷ [] } ∷ [];
}

mark-IsMark : IsMark mark
unfolding files_size
mark-IsMark = record {
  small_submission_id = omega arith;
  small_marker = omega arith;
  small_result = omega arith;
  small_time = omega arith;
  small_server_id = omega arith;
  plain_comment = ground arith;
  good_files = ((ground arith, omega arith), tt);
  small_size = omega arith;
}

abbrev mark_bytes : Bytes
mark_bytes = put_word 19 (
    put_word 4 (
      put_word 1 (
        put_word 1000
          (put_word 1 (codes "wrong" ++ 0 ∷ (codes "out" ++ 0 ∷ put_word 3 (1 ∷ 0 ∷ 2 ∷ [])))))))

stored_mark : store mark (zeros 37) ≡ some mark_bytes
unfolding store put_text store_files put_word zeros files_size
stored_mark = refl

room : length (zeros 37) ≡ storage_required mark
unfolding zeros storage_required files_size
room = refl

load-store_mark_example : load mark_bytes ≡ loaded mark (storage_required mark)
load-store_mark_example = load-store_mark mark (zeros 37) mark_bytes mark-IsMark room stored_mark

-- A client with every permission.
abbrev judge : Client
judge = record { user_id = 4; group_id = 1; permissions = replicate 24 true }

abbrev pub environment : Environment
environment = record {
  who = λ cc. judge;
  now = 35;
  own_id = 1;
  db = none;
  marker_db = none;
  makes = λ c. true;
  permissions_of = λ t. replicate 24 true;
  languages = codes "C++" ∷ [];
  hashpw = λ user p. p;
  max_submission_id = none;
  max_clarification_request_id = none;
  max_clarification_id = none;
  stored_own_id = some 1;
  is_master = true;
}

abbrev pub world : World
world = record {
  markers = record {
    issued = [];
    markers = [];
    problems = [];
    issue_times = [];
    timeout = 60;
    sent = [];
  };
  registry = record { eventmap = []; clients = []; sent = [] };
  counters = record {
    local_id = 1;
    submission = 17;
    clarification_request = 17;
    clarification = 17;
    server = 1;
    problem = 17;
  };
  timer = contest;
  queue = [];
}

-- A mark of submission 19 with the file that `description` describes, in a content of three bytes.
abbrev pub request : Bytes → MessageBlock
request description = record {
  message = codes "mark";
  message_id = [];
  headers =
      (codes "comment", codes "wrong")
      ∷ (codes "file0", description)
      ∷ (codes "result", codes "1")
      ∷ (codes "submission_id", codes "19")
      ∷ [];
  content_length = 3;
  content_private = true;
  content = some (1 ∷ 0 ∷ 2 ∷ []);
  content_pos = none;
}

abbrev placed_mark : MarkMessage
placed_mark = record mark { time = 35 }

placing :
    place_mark environment 4 (request (codes "0 3 out")) world
    ≡ some (finish_mark environment 4 19 placed_mark world)
unfolding place_mark header find from_string from_unspaced skip_space is_number all_digits
    digits_value is_digit is_space mark_legal granted index get_elem? collect_files has_attribute
    file_name to_string emit parse_description c_str number_field span_digits text_field
    all_printable slice add_file new_mark lt_bytes
placing = refl

place_mark-Authorised_example :
    Placed environment 4
      (request (codes "0 3 out"))
      world
      (finish_mark environment 4 19 placed_mark world)
place_mark-Authorised_example =
    place_mark-Authorised environment 4 (request (codes "0 3 out")) world
      (finish_mark environment 4 19 placed_mark world) placing

submit-IsAccepted_example :
    Queued environment 4
      (request (codes "0 3 out"))
      world
      (submit environment 4 (request (codes "0 3 out")) world)
submit-IsAccepted_example = submit-IsAccepted environment 4 (request (codes "0 3 out")) world
