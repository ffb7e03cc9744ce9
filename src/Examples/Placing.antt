-- ===== src/Examples/Placing.antt =====
-- The theorems on the files of a mark at concrete inputs, where their hypotheses hold.
use abacuscm.Prelude.{
  ℕ, ◌+◌, ◌≤◌, ◌≡◌, refl, ◌≢◌, ◌↔◌, ◌⊎◌, inl, inr, none, some, List, [], ◌∷◌, ◌++◌, arith,
  Bool-cases, All, Bytes, codes, lt_bytes, nat_order, bytes_order, same, find,
}
use abacuscm.Decimal.{
  from_string, from_unspaced, skip_space, is_number, all_digits, digits_value, is_digit, is_space,
  to_string, emit,
}
use abacuscm.MessageBlock.{header, has_attribute}
use abacuscm.Permissions.{index, get_elem?}
use abacuscm.Actions.{granted}
use abacuscm.Actions.PlaceMark.{
  place_mark, mark_legal, parse_description, c_str, number_field, span_digits, text_field,
  all_printable, slice, file_name, collect_files,
}
use abacuscm.Actions.Beyond.{IsBeyond, IsInside, HasFiles}
use abacuscm.Actions.Files.{IsLegal, place_mark_inside, place_mark_outside}
use abacuscm.Examples.Handlers.{environment, world, request}

-- What holds of no text and of every value holds of whatever header is asked for.
values-All :
    (P : Bytes → Type 0) (k : Bytes) (hs : List (Bytes × Bytes))
    → P []
    → All (λ e. P e.1) hs
    → P (elim (find k hs) [ none ↦ [] | some v ↦ v ])
unfolding find
values-All P k [] n h = n
values-All P k ((j, v) ∷ hs) n h = elim (Bool-cases (same j k)) [
  | inl e ↦ rw (e, find) h.0
  | inr e ↦ rw (e, find) (values-All P k hs n h.1)
]

-- The descriptions that a text may be are of no bytes or lie within three.
abbrev Short : Bytes → Type 0
Short v =
    (start size : ℕ) (name : Bytes)
    → parse_description v ≡ some (start, size, name)
    → (size ≡ 0) ⊎ (start + size ≤ 3)

unparsed-Short : (v : Bytes) → parse_description v ≡ none → Short v
unparsed-Short v e start size name h = absurd (ground (arith, e, h))

described : parse_description (codes "0 3 out") ≡ some (0, 3, codes "out")
unfolding parse_description c_str number_field span_digits text_field all_printable digits_value
    is_digit
described = refl

described-Short : Short (codes "0 3 out")
described-Short start size name h = inr (ground (arith, described, h))

nothing : parse_description [] ≡ none
unfolding parse_description c_str number_field span_digits
nothing = refl

comment_text : parse_description (codes "wrong") ≡ none
unfolding parse_description c_str number_field span_digits is_digit
comment_text = refl

result_text : parse_description (codes "1") ≡ none
unfolding parse_description c_str number_field span_digits is_digit
result_text = refl

submission_text : parse_description (codes "19") ≡ none
unfolding parse_description c_str number_field span_digits is_digit
submission_text = refl

request-IsInside : IsInside (request (codes "0 3 out"))
unfolding header
request-IsInside c =
    values-All Short (file_name c) (request (codes "0 3 out")).headers (unparsed-Short [] nothing) (
      unparsed-Short (codes "wrong") comment_text,
      (
        described-Short,
        (unparsed-Short (codes "1") result_text, (unparsed-Short (codes "19") submission_text, tt)),
      ),
    )

place_mark_inside_example : place_mark environment 4 (request (codes "0 3 out")) world ≢ none
place_mark_inside_example =
    place_mark_inside environment 4 (request (codes "0 3 out")) world request-IsInside

-- The same request with a file of nine bytes: it is copied from beyond the content.
beyond : place_mark environment 4 (request (codes "0 9 out")) world ≡ none
unfolding place_mark header find from_string from_unspaced skip_space is_number all_digits
    digits_value is_digit is_space mark_legal granted index get_elem? collect_files has_attribute
    file_name to_string emit parse_description c_str number_field span_digits text_field
    all_printable slice lt_bytes
beyond = refl

-- So it is where a zero ends the description.
ended : parse_description (codes "0 9 out" ++ 0 ∷ 1 ∷ []) ≡ some (0, 9, codes "out")
unfolding parse_description c_str number_field span_digits text_field all_printable digits_value
    is_digit
ended = refl

place_mark_outside_example : (place_mark environment 4 (request (codes "0 9 out")) world ≡ none) ↔ (
    IsLegal environment 4 (request (codes "0 9 out")) world
    × ((k : ℕ) × HasFiles (request (codes "0 9 out")) 0 k × IsBeyond (request (codes "0 9 out")) k))
place_mark_outside_example = place_mark_outside environment 4 (request (codes "0 9 out")) world
