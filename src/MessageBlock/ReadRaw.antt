-- ===== src/MessageBlock/ReadRaw.antt =====
-- How `addBytes` reads the parts of a printed block.
use abacuscm.Prelude.{
  ℕ, ◌+◌, ◌^◌, ◌<◌, ◌≡◌, refl, sym, ap, ◌∙◌, subst, ◌≢◌, true, false, some, List, [], ◌∷◌, ◌++◌,
  append-nil, append_assoc, arith, length, length-append, take-length, take-append_le, All,
  All-append, Bytes, eq_bytes, lt_bytes, Lacks, nat_order, bytes_order, Below, IsSorted, put-Below,
}
use native.Mathlib.Nat.{add-zero}
use mathlib.Core.Path.{ap₂}
use abacuscm.Decimal.{is_positive}
use abacuscm.MessageBlock.{
  Headers, MessageBlock, ret, collect, next, done, body, line_step, add_lines, print_headers,
  print_id, first_line, end_headers, header_line, declared_length,
}
use abacuscm.MessageBlock.Lines.{resumed, advance-pos}
use abacuscm.MessageBlock.ReadLine.{reading, split_at-Lacks, split_at-append, after_line, read_line}

eq_bytes-nil : (xs : Bytes) → xs ≢ [] → eq_bytes xs [] ≡ false
unfolding eq_bytes
eq_bytes-nil xs h = ground arith

append_cons-ne-nil : (xs : Bytes) (y : ℕ) (ys : Bytes) → xs ++ (y ∷ ys) ≢ []
append_cons-ne-nil [] y ys e = cc
append_cons-ne-nil (x ∷ xs) y ys e = cc

-- The action and the message id are read from the first line.
pub line_step_first :
    (message id : Bytes)
    → Lacks 32 message
    → line_step (reading [] [] []) (message ++ print_id id) ≡ next (reading message id [])
unfolding line_step first_line print_id eq_bytes
line_step_first message [] h = rw append-nil (ground (arith, split_at-Lacks 32 message h))
line_step_first message (c ∷ cs) h = ground (arith, split_at-append 32 message (c ∷ cs) h)

line_step_header :
    (message id name value : Bytes) (headers : Headers)
    → message ≢ []
    → Lacks b':' name
    → Below name headers
    → line_step (reading message id headers) (name ++ (b':' ∷ value))
      ≡ next (reading message id (headers ++ (name, value) ∷ []))
unfolding line_step header_line
line_step_header message id name value headers m h b = ground (
  arith,
  eq_bytes-nil message m,
  eq_bytes-nil (name ++ (b':' ∷ value)) (append_cons-ne-nil name b':' value),
  split_at-append b':' name value h,
  put-Below name value headers b,
)

line_step_end :
    (message id : Bytes) (headers : Headers)
    → message ≢ []
    → line_step (reading message id headers) [] ≡ end_headers (reading message id headers)
unfolding line_step eq_bytes
line_step_end message id headers m = ground (arith, eq_bytes-nil message m)

end_headers_body :
    (message id : Bytes) (headers : Headers) (c : Bytes)
    → declared_length headers ≡ length c
    → 0 < length c
    → length c < 2 ^ 31
    → end_headers (reading message id headers)
      ≡ body (record (reading message id headers) {
        content_length = declared_length headers;
        content = some [];
        content_pos = some 0;
      })
unfolding end_headers
end_headers_body message id headers c d p q = ground arith

end_headers_done :
    (message id : Bytes) (headers : Headers)
    → is_positive (declared_length headers) ≡ false
    → end_headers (reading message id headers)
      ≡ done (record (reading message id headers) { content_length = declared_length headers })
unfolding end_headers
end_headers_done message id headers d = rw (d, end_headers)

-- A header that can be printed on a line of its own.
abbrev pub IsHeader : Bytes × Bytes → Type 0
IsHeader h = Lacks b':' h.0 × Lacks 10 h.0 × Lacks 10 h.1

All-middle {ℓ κ} :
    {A : Type ℓ} (P : A → Type κ) (xs : List A) (y : A) (ys : List A) → All P (xs ++ y ∷ ys) → P y
All-middle P [] y ys h = h.0
All-middle P (x ∷ xs) y ys h = All-middle P xs y ys h.1

IsSorted-append-Below :
    (k : Bytes) (v : Bytes) (m r : Headers) → IsSorted (m ++ (k, v) ∷ r) → Below k m
IsSorted-append-Below k v [] r h = tt
IsSorted-append-Below k v ((j, w) ∷ m) r h =
    (All-middle (λ e. lt_bytes j e.0 ≡ true) m (k, v) r h.0, IsSorted-append-Below k v m r h.1)

pub line_Lacks : (name value : Bytes) → IsHeader (name, value) → Lacks 10 (name ++ (b':' ∷ value))
line_Lacks name value h =
    All-append (λ c. c ≢ 10) name (b':' ∷ value) h.1 ((λ e. absurd (omega arith)), h.2)

-- All headers are read.
pub read_headers :
    (message id : Bytes) (hs rest : Headers) (t : Bytes) (n : ℕ)
    → message ≢ []
    → All IsHeader rest
    → IsSorted (hs ++ rest)
    → add_lines (reading message id hs) [] (print_headers rest ++ t) n
      ≡ add_lines (reading message id (hs ++ rest)) [] t (n + length (print_headers rest))
unfolding print_headers after_line
read_headers message id hs [] t n m p s = rw (append-nil, add-zero)
read_headers message id hs ((name, value) ∷ rest) t n m p s =
    let line = name ++ (b':' ∷ value) in
    let below = IsSorted-append-Below name value hs rest s in
    let step = line_step_header message id name value hs m p.0.0 below in
    let whole = append_assoc hs ((name, value) ∷ []) rest in
    ap (λ b. add_lines (reading message id hs) [] b n)
      (append_assoc line (10 ∷ print_headers rest) t)
    ∙ read_line message id hs line (print_headers rest ++ t) n (line_Lacks name value p.0)
    ∙ ap (λ l. after_line l (print_headers rest ++ t) (n + length line + 1)) step
    ∙ read_headers message id (hs ++ (name, value) ∷ []) rest t (n + length line + 1) m p.1
        (subst IsSorted (sym whole) s)
    ∙ ap₂ (λ h k. add_lines (reading message id h) [] t k) whole
        (omega (arith, length-append line (10 ∷ print_headers rest)))

collected :
    (mb : MessageBlock) (c rest : Bytes) (n : ℕ)
    → mb.content ≡ some []
    → mb.content_length ≡ length c
    → 0 < length c
    → resumed n (collect mb 0 (c ++ rest))
      ≡ (ret (n + length c), record mb { content = some c; content_pos = some (length c) })
unfolding collect
collected mb c rest n e l p = ground (
  arith,
  length-append c rest,
  take-append_le (length c) c rest,
  take-length c,
  advance-pos n (length c),
)

-- The empty line and the content behind it.
pub read_end :
    (message id c : Bytes) (headers : Headers) (rest : Bytes) (n : ℕ)
    → message ≢ []
    → declared_length headers ≡ length c
    → 0 < length c
    → length c < 2 ^ 31
    → add_lines (reading message id headers) [] (10 ∷ (c ++ rest)) n ≡ (
      ret (n + 1 + length c),
      record (reading message id headers) {
        content_length = declared_length headers;
        content = some c;
        content_pos = some (length c);
      },
    )
unfolding after_line
read_end message id c headers rest n m d p q =
    let mb = record (reading message id headers) {
      content_length = declared_length headers;
      content = some [];
      content_pos = some 0;
    } in
    let step : line_step (reading message id headers) [] ≡ body mb =
      line_step_end message id headers m ∙ end_headers_body message id headers c d p q in
    read_line message id headers [] (c ++ rest) n tt
    ∙ ap (λ l. after_line l (c ++ rest) (n + 0 + 1)) step
    ∙ ap (λ k. after_line (body mb) (c ++ rest) (k + 1)) (add-zero n)
    ∙ collected mb c rest (n + 1) refl d p

pub read_end_empty :
    (message id : Bytes) (headers : Headers) (rest : Bytes) (n : ℕ)
    → message ≢ []
    → is_positive (declared_length headers) ≡ false
    → add_lines (reading message id headers) [] (10 ∷ rest) n ≡ (
      ret (n + 1),
      record (reading message id headers) { content_length = declared_length headers },
    )
unfolding after_line
read_end_empty message id headers rest n m d =
    read_line message id headers [] rest n tt
    ∙ ap (λ l. after_line l rest (n + 0 + 1))
        (line_step_end message id headers m ∙ end_headers_done message id headers d)
    ∙ ap
        (λ k. (
          ret (k + 1),
          record (reading message id headers) { content_length = declared_length headers },
        ))
        (add-zero n)
