-- ===== src/Examples.antt =====
-- The theorems at concrete inputs, where their hypotheses hold.
mod Core
mod Encoding
mod Transport
mod Handlers
mod Placing
mod Services
mod Announcements
mod Threads
mod Contest
use abacuscm.Prelude.{
  ℕ, zero, suc, ◌+◌, ◌-◌, ◌*◌, ◌/◌, ◌%◌, ◌^◌, ◌≤◌, ◌<◌, String, ◌≡◌, refl, sym, ap, ◌∙◌, subst, ◌≢◌,
  ◌↔◌, ◌⊎◌, inl, inr, Bool, true, false, not, ◌&&◌, ◌||◌, Option, none, some, List, [], ◌∷◌, ◌++◌,
  map, append-nil, append_assoc, arith, ltb, leb, ◌==◌, if◌then◌else◌, ltb→lt, lt→ltb, leb→le,
  ==_iff, ==_refl, ==_ne, Bool-cases, Option-cases, ◌>>=◌, length, take, drop, length-append,
  take-length_append, take-length, take-append_ge, take-append_le, drop-length_append,
  take-append_drop, length-take, length-drop, All, All-append, list-cases, Bytes, codes, eq_bytes,
  lt_bytes, Lacks, eq_bytes_refl, eq_bytes→eq, eq_bytes_iff, lt_bytes-asymm, lt_bytes_irrefl,
  lt_bytes_trans, lt_bytes-connex, StrictOrder, nat_order, bytes_order, same, find, put, erase,
  same_refl, same→eq, find-put, find-erase, Below, IsSorted, All-put, put-Below, put-IsSorted,
  erase-IsSorted,
}
use abacuscm.Decimal.{is_positive}
use abacuscm.MessageBlock.{
  MessageBlock, new, set_header, set_content, set_message_id, add_bytes, get_raw, add_lines,
  line_step, unbuffer, split_at, ret, failed, declared_length,
}
use abacuscm.MessageBlock.Lines.{resumed}
use abacuscm.MessageBlock.Chunks.{IsOpen, add_bytes-append, add_bytes_extra}
use abacuscm.MessageBlock.Counts.{add_bytes_failed, add_bytes-le, new-IsReading}
use abacuscm.MessageBlock.RoundTrip.{
  IsPrintable, received, add_bytes-get_raw, set_content-announced,
}
use abacuscm.ClientConnection.{read_chunk, read_data}
use abacuscm.ClientConnection.Chunking.{read_data-flatten}
use mathlib.Core.List.{flatten}
use abacuscm.ClientConnection.Stream.{IsWaiting, none-IsWaiting}

abbrev request : Bytes
request = codes "whatami" ++ 10 ∷ 10 ∷ []

read_data-flatten_example :
    read_data none (codes "wha" ∷ codes "tami" ∷ (10 ∷ []) ∷ (10 ∷ []) ∷ [])
    ≡ read_chunk none (flatten (codes "wha" ∷ codes "tami" ∷ (10 ∷ []) ∷ (10 ∷ []) ∷ []))
read_data-flatten_example =
    read_data-flatten none (codes "wha" ∷ codes "tami" ∷ (10 ∷ []) ∷ (10 ∷ []) ∷ []) none-IsWaiting

started : (add_bytes (new []) (codes "whatami")).0 ≡ ret 0
unfolding add_bytes new add_lines line_step eq_bytes unbuffer split_at find
started = refl

completed : (add_bytes (new []) request).0 ≡ ret 9
unfolding add_bytes new add_lines line_step eq_bytes unbuffer split_at find
completed = refl

refused_line : (add_bytes (new []) (97 ∷ 10 ∷ 98 ∷ 10 ∷ [])).0 ≡ failed
unfolding add_bytes new add_lines line_step eq_bytes unbuffer split_at find
refused_line = refl

IsOpen-block : IsOpen (new [])
IsOpen-block = inl (new-IsReading [])

add_bytes-append_example :
    add_bytes (new []) (codes "whatami" ++ request)
    ≡ resumed 7 (add_bytes (add_bytes (new []) (codes "whatami")).1 request)
add_bytes-append_example = add_bytes-append (new []) (codes "whatami") request IsOpen-block started

cons_nil : {c : ℕ} {cs : Bytes} → (c ∷ cs) ≢ []
cons_nil e = cc

abbrev reply : MessageBlock
reply = record {
  message = codes "ok";
  message_id = codes "7";
  headers = (codes "u", codes "t") ∷ [];
  content_length = 0;
  content_private = true;
  content = none;
  content_pos = none;
}

reply-IsPrintable : IsPrintable reply
unfolding declared_length find is_positive lt_bytes
reply-IsPrintable = record {
  has_action = λ e. absurd (cons_nil e);
  action_word = (ground arith, (ground arith, tt));
  action_line = (ground arith, (ground arith, tt));
  id_line = (ground arith, tt);
  header_lines = (((ground arith, tt), (ground arith, tt), (ground arith, tt)), tt);
  sorted = (tt, tt);
  announced = inl (refl, refl);
}

add_bytes-get_raw_example :
    add_bytes (new []) (get_raw reply ++ codes "x") ≡ (ret (length (get_raw reply)), received reply)
add_bytes-get_raw_example = add_bytes-get_raw reply (codes "x") reply-IsPrintable
