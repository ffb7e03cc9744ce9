-- ===== src/MessageBlock.antt =====
-- src/messageblock.C and include/messageblock.h: the unit of the client protocol. A block has an
-- action (`_message`), an optional message id, headers and an optional content.
--
-- The C++ object is used in two ways, and so is the record. While lines are read
-- (`_content_pos == NULL`) `_content` holds the bytes of a line that has not ended yet, and
-- `_content_length` their number. While content is read `_content_pos` is an offset into
-- `_content`; the list holds the bytes in front of that offset, the others are not initialised.
-- An `int` is its 32-bit pattern. Lines of 2 ^ 31 bytes and more, where the count of buffered bytes
-- would overflow, are outside the model, and so is a failing allocation.
pub mod Lines
pub mod Chunks
pub mod ReadLine
pub mod ReadRaw
pub mod RoundTrip
pub mod Counts
use abacuscm.Prelude.{
  ℕ, zero, suc, ◌+◌, ◌-◌, ◌*◌, ◌/◌, ◌%◌, ◌^◌, ◌≤◌, ◌<◌, String, ◌≡◌, refl, sym, ap, ◌∙◌, subst, ◌≢◌,
  ◌↔◌, ◌⊎◌, inl, inr, Bool, true, false, not, ◌&&◌, ◌||◌, Option, none, some, List, [], ◌∷◌, ◌++◌,
  map, append-nil, append_assoc, arith, ltb, leb, ◌==◌, if◌then◌else◌, ltb→lt, lt→ltb, leb→le,
  ==_iff, ==_refl, ==_ne, Bool-cases, Option-cases, length, take, drop, length-append,
  take-length_append, take-length, take-append_ge, take-append_le, drop-length_append,
  take-append_drop, length-take, length-drop, All, All-append, Bytes, codes, eq_bytes, lt_bytes,
  Lacks, eq_bytes_refl, eq_bytes→eq, eq_bytes_iff, lt_bytes-asymm, lt_bytes_irrefl, lt_bytes_trans,
  lt_bytes-connex, StrictOrder, nat_order, bytes_order, same, find, put, erase, same_refl, same→eq,
  find-put, find-erase, Below, IsSorted, put-Below,
}
use abacuscm.Decimal.{to_string, atol_int, is_positive}

abbrev pub Headers : Type 0
Headers = List (Bytes × Bytes)

pub record MessageBlock : Type 0 where
  pub message : Bytes
  pub message_id : Bytes
  pub headers : Headers
  pub content_length : ℕ
  pub content_private : Bool
  pub content : Option Bytes
  pub content_pos : Option ℕ

-- `MessageBlock(message)`; the constructor without an argument is this one at the empty text.
unfoldable pub new : Bytes → MessageBlock
new message = record {
  message = message;
  message_id = [];
  headers = [];
  content_length = 0;
  content_private = true;
  content = none;
  content_pos = none;
}

-- `(*mb)[name] = value`.
unfoldable pub set_header : MessageBlock → Bytes → Bytes → MessageBlock
set_header mb name value = record mb { headers = put name value mb.headers }

-- `operator[] const`: a header that is missing reads as the empty text.
unfoldable pub header : MessageBlock → Bytes → Bytes
header mb name = elim (find name mb.headers) [ none ↦ [] | some v ↦ v ]

unfoldable pub has_attribute : MessageBlock → Bytes → Bool
has_attribute mb name = elim (find name mb.headers) [ none ↦ false | some v ↦ true ]

unfoldable pub set_message_id : MessageBlock → Bytes → MessageBlock
set_message_id mb id = record mb { message_id = id }

unfoldable pub error : Bytes → MessageBlock
unfolding new set_header
error msg = set_header (new (codes "err")) (codes "msg") msg

unfoldable pub ok_reply : MessageBlock
unfolding new
ok_reply = new (codes "ok")

-- `setContent(data, size, make_private_copy)`, `none` for a null pointer; `size` is the length of
-- the list. It fails on no input.
unfoldable pub set_content : MessageBlock → Option Bytes → Bool → MessageBlock
set_content mb none copy = record mb {
  content_length = 0;
  content_private = true;
  content = none;
  content_pos = none;
}
set_content mb (some []) copy = record mb {
  content_length = 0;
  content_private = true;
  content = none;
  content_pos = none;
}
set_content mb (some (c ∷ cs)) copy =
    let size = length (c ∷ cs) in
    record mb {
      headers = put (codes "content-length") (to_string size) mb.headers;
      content_length = size;
      content_private = copy;
      content = some (c ∷ cs);
      content_pos = some size;
    }

-- What `addBytes` returns: -1, or a number that is 0 if the block wants more bytes.
pub data Outcome : Type 0 where
  failed : Outcome
  ret : ℕ → Outcome

-- `res <= 0 ? res : chowed + res`.
unfoldable pub advance : ℕ → Outcome → Outcome
advance chowed failed = failed
advance chowed (ret zero) = ret zero
advance chowed (ret (suc n)) = ret (chowed + suc n)

abbrev pub bytes_of : Option Bytes → Bytes
bytes_of none = []
bytes_of (some c) = c

-- The branch of `addBytes` that collects content.
unfoldable pub collect : MessageBlock → ℕ → Bytes → Outcome × MessageBlock
collect mb pos bytes =
    let bytesleft = mb.content_length - pos in
    let to_copy = if ltb (length bytes) bytesleft then length bytes else bytesleft in
    (
      ret (if ltb (length bytes) bytesleft then 0 else bytesleft),
      record mb {
        content = some (bytes_of mb.content ++ take to_copy bytes);
        content_pos = some (pos + to_copy);
      },
    )

-- No newline is left: the bytes are kept for the next call. With no bytes the loop is not entered.
unfoldable pub buffer : MessageBlock → Bytes → MessageBlock
buffer mb [] = mb
buffer mb (c ∷ cs) = record mb {
  content = some (bytes_of mb.content ++ (c ∷ cs));
  content_length = mb.content_length + length (c ∷ cs);
}

-- The text around the first `b`.
unfoldable pub split_at : ℕ → Bytes → Option (Bytes × Bytes)
split_at b [] = none
split_at b (c ∷ cs) =
    if c == b
    then some ([], cs)
    else elim (split_at b cs) [ none ↦ none | some (l, r) ↦ some (c ∷ l, r) ]

-- What one line does: go on, fail, end the block, or begin its content.
pub data LineStep : Type 0 where
  next : MessageBlock → LineStep
  bad : MessageBlock → LineStep
  done : MessageBlock → LineStep
  body : MessageBlock → LineStep

-- The first line: the action, and the message id behind its first space.
first_line : MessageBlock → Bytes → MessageBlock
first_line mb line = elim (split_at b' ' line) [
  | none ↦ record mb { message = line }
  | some (l, r) ↦ record mb { message = l; message_id = r }
]

-- The length that the headers announce.
unfoldable pub declared_length : Headers → ℕ
declared_length headers = elim (find (codes "content-length") headers) [
  | none ↦ 0
  | some v ↦ atol_int v
]

-- The empty line: the headers are complete.
end_headers : MessageBlock → LineStep
unfolding declared_length
end_headers mb =
    let len = declared_length mb.headers in
    if is_positive len
    then body (record mb { content_length = len; content = some []; content_pos = some 0 })
    else done (record mb { content_length = len })

header_line : MessageBlock → Bytes → LineStep
header_line mb line = elim (split_at b':' line) [
  | none ↦ bad mb
  | some (name, value) ↦ next (record mb { headers = put name value mb.headers })
]

unfoldable pub line_step : MessageBlock → Bytes → LineStep
unfolding first_line end_headers header_line
line_step mb line =
    if eq_bytes mb.message []
    then next (first_line mb line)
    else if eq_bytes line []
    then end_headers mb
    else header_line mb line

-- The buffered bytes are taken over into the line.
unfoldable pub unbuffer : MessageBlock → MessageBlock
unbuffer mb = elim mb.content [
  | none ↦ mb
  | some c ↦ record mb { content = none; content_length = 0 }
]

-- The loop over lines. `seen` are the bytes that the inner loop has passed since the last newline,
-- `chowed` counts all that were passed in this call.
unfoldable pub add_lines : MessageBlock → Bytes → Bytes → ℕ → Outcome × MessageBlock
add_lines mb seen [] chowed = (ret 0, buffer mb seen)
add_lines mb seen (c ∷ cs) chowed = elim (c == 10) [
  | false ↦ add_lines mb (seen ++ (c ∷ [])) cs (chowed + 1)
  | true ↦ elim (line_step (unbuffer mb) (bytes_of mb.content ++ seen)) [
    | next mb' ↦ add_lines mb' [] cs (chowed + 1)
    | bad mb' ↦ (failed, mb')
    | done mb' ↦ (ret (chowed + 1), mb')
    | body mb' ↦ (advance (chowed + 1) (collect mb' 0 cs).0, (collect mb' 0 cs).1)
  ]
]

unfoldable pub add_bytes : MessageBlock → Bytes → Outcome × MessageBlock
add_bytes mb bytes = elim mb.content_pos [
  | some pos ↦ collect mb pos bytes
  | none ↦ add_lines mb [] bytes 0
]

unfoldable pub print_headers : Headers → Bytes
print_headers [] = []
print_headers ((name, value) ∷ hs) = (name ++ (b':' ∷ value)) ++ (10 ∷ print_headers hs)

unfoldable pub print_id : Bytes → Bytes
print_id [] = []
print_id (c ∷ cs) = b' ' ∷ c ∷ cs

-- `getRaw`: the block as bytes.
unfoldable pub get_raw : MessageBlock → Bytes
unfolding print_id print_headers
get_raw mb =
    mb.message
    ++ (print_id mb.message_id
        ++ (10 ∷ (print_headers mb.headers ++ (10 ∷ take mb.content_length (bytes_of mb.content)))))
