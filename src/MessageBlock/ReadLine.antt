-- ===== src/MessageBlock/ReadLine.antt =====
-- How `addBytes` reads one line that ends in a newline.
use abacuscm.Prelude.{
  ℕ, ◌+◌, ◌≡◌, refl, sym, ◌∙◌, ◌≢◌, inl, inr, true, none, some, [], ◌∷◌, ◌++◌, append-nil,
  append_assoc, arith, ==_ne, length, Bytes, Lacks, nat_order, bytes_order,
}
use native.Mathlib.Nat.{add-zero}
use abacuscm.MessageBlock.Lines.{LineStep-cases, suc_shift}
use mathlib.Core.Path.{ap₂}
use abacuscm.MessageBlock.{
  Headers, MessageBlock, Outcome, failed, ret, advance, collect, split_at, LineStep, next, bad,
  done, body, line_step, unbuffer, add_lines,
}

-- A byte that the text lacks does not cut it.
pub split_at-Lacks : (b : ℕ) (xs : Bytes) → Lacks b xs → split_at b xs ≡ none
unfolding split_at
split_at-Lacks b [] h = refl
split_at-Lacks b (x ∷ xs) h = ground (arith, split_at-Lacks b xs h.1)

pub split_at-append :
    (b : ℕ) (xs ys : Bytes) → Lacks b xs → split_at b (xs ++ b ∷ ys) ≡ some (xs, ys)
unfolding split_at
split_at-append b [] ys h = ground arith
split_at-append b (x ∷ xs) ys h = ground (arith, split_at-append b xs ys h.1)

pass :
    (mb : MessageBlock) (seen : Bytes) (c : ℕ) (cs : Bytes) (n : ℕ)
    → c ≢ 10
    → add_lines mb seen (c ∷ cs) n ≡ add_lines mb (seen ++ (c ∷ [])) cs (n + 1)
unfolding add_lines
pass mb seen c cs n h = rw (==_ne c 10 h, add_lines)

-- The bytes of a line are passed over, whatever follows.
add_lines-line :
    (mb : MessageBlock) (seen line t : Bytes) (n : ℕ)
    → Lacks 10 line
    → add_lines mb seen (line ++ t) n ≡ add_lines mb (seen ++ line) t (n + length line)
add_lines-line mb seen [] t n h = rw (append-nil, add-zero)
add_lines-line mb seen (c ∷ cs) t n h =
    pass mb seen c (cs ++ t) n h.0
    ∙ add_lines-line mb (seen ++ (c ∷ [])) cs t (n + 1) h.1
    ∙ ap₂ (λ s k. add_lines mb s t k) (append_assoc seen (c ∷ []) cs)
        (sym (suc_shift n (length cs)))

-- The block that is read: the lines so far, nothing buffered.
abbrev pub reading : Bytes → Bytes → Headers → MessageBlock
reading message id headers = record {
  message = message;
  message_id = id;
  headers = headers;
  content_length = 0;
  content_private = true;
  content = none;
  content_pos = none;
}

-- What the loop does with a line.
unfoldable pub after_line : LineStep → Bytes → ℕ → Outcome × MessageBlock
after_line (next mb) rest n = add_lines mb [] rest n
after_line (bad mb) rest n = (failed, mb)
after_line (done mb) rest n = (ret n, mb)
after_line (body mb) rest n = (advance n (collect mb 0 rest).0, (collect mb 0 rest).1)

module _ (message id : Bytes) (headers : Headers) where
  newline :
      (line rest : Bytes) (n : ℕ)
      → add_lines (reading message id headers) line (10 ∷ rest) n
        ≡ after_line (line_step (reading message id headers) line) rest (n + 1)
  unfolding add_lines after_line unbuffer
  newline line rest n = elim (LineStep-cases (line_step (reading message id headers) line)) [
    | inl (mb, p) ↦ rw (p, add_lines)
    | inr (inl (mb, p)) ↦ rw (p, add_lines)
    | inr (inr (inl (mb, p))) ↦ rw (p, add_lines)
    | inr (inr (inr (mb, p))) ↦ rw (p, add_lines)
  ]

  pub read_line :
      (line rest : Bytes) (n : ℕ)
      → Lacks 10 line
      → add_lines (reading message id headers) [] (line ++ (10 ∷ rest)) n
        ≡ after_line (line_step (reading message id headers) line) rest (n + length line + 1)
  read_line line rest n h =
      add_lines-line (reading message id headers) [] line (10 ∷ rest) n h
      ∙ newline line rest (n + length line)
