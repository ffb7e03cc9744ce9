-- ===== src/MessageBlock/RoundTrip.antt =====
-- What `getRaw` prints `addBytes` reads back.
use abacuscm.Prelude.{
  ℕ, zero, suc, ◌+◌, ◌^◌, ◌<◌, ◌≡◌, refl, sym, ap, ◌∙◌, ◌≢◌, ◌⊎◌, inl, inr, Bool, true, false,
  Option, none, some, [], ◌∷◌, ◌++◌, append_assoc, arith, length, take, length-append, take-length,
  All, All-append, Bytes, codes, Lacks, nat_order, bytes_order, find, put, same_refl, find-put,
  IsSorted,
}
use native.Mathlib.Nat.{add-zero}
use mathlib.Core.Path.{ap₂}
use abacuscm.Decimal.{atol_int, to_string, is_positive}
use abacuscm.Decimal.RoundTrip.{atol_int-to_string}
use abacuscm.MessageBlock.{
  Headers, MessageBlock, ret, new, bytes_of, add_lines, add_bytes, get_raw, print_headers, print_id,
  declared_length, set_content,
}
use abacuscm.MessageBlock.ReadLine.{reading, after_line, read_line}
use abacuscm.MessageBlock.ReadRaw.{
  IsHeader, line_step_first, read_headers, read_end, read_end_empty,
}

abbrev received_with : MessageBlock → Option Bytes → MessageBlock
received_with mb o = record mb {
  content_length = declared_length mb.headers;
  content_private = true;
  content = o;
  content_pos = elim o [ none ↦ none | some c ↦ some (length c) ];
}

-- The block that the other side holds when it has read `mb`.
abbrev pub received : MessageBlock → MessageBlock
received mb = received_with mb mb.content

-- A block that the protocol can carry: each part fits its line, the headers are those of a map,
-- and they announce the content, if there is one.
pub record IsPrintable (mb : MessageBlock) : Type 0 where
  pub has_action : mb.message ≢ []
  pub action_word : Lacks 32 mb.message
  pub action_line : Lacks 10 mb.message
  pub id_line : Lacks 10 mb.message_id
  pub header_lines : All IsHeader mb.headers
  pub sorted : IsSorted mb.headers
  pub announced :
      ((mb.content ≡ none) × (is_positive (declared_length mb.headers) ≡ false))
      ⊎ ((c : Bytes) × (mb.content ≡ some c)
          × (mb.content_length ≡ length c)
          × (declared_length mb.headers ≡ length c)
          × (0 < length c)
          × (length c < 2 ^ 31))

print_id-Lacks : (id : Bytes) → Lacks 10 id → Lacks 10 (print_id id)
unfolding print_id
print_id-Lacks [] h = tt
print_id-Lacks (c ∷ cs) h = ((λ e. absurd (omega arith)), h)

take-nil : (n : ℕ) → take {A = ℕ} n [] ≡ []
take-nil zero = refl
take-nil (suc n) = refl

-- The lines of a printed block, up to the empty one.
read_lines :
    (mb : MessageBlock) (t : Bytes)
    → IsPrintable mb
    → let top = mb.message ++ print_id mb.message_id in
      add_lines (reading [] [] []) [] (top ++ (10 ∷ (print_headers mb.headers ++ t))) 0
      ≡ add_lines
          (reading mb.message mb.message_id mb.headers)
          []
          t
          (0 + length top + 1 + length (print_headers mb.headers))
unfolding after_line
read_lines mb t w =
    let top = mb.message ++ print_id mb.message_id in
    let P = print_headers mb.headers ++ t in
    read_line [] [] [] top P 0 (
      All-append (λ c. c ≢ 10) mb.message (print_id mb.message_id) w.action_line
        (print_id-Lacks mb.message_id w.id_line))
    ∙ ap (λ l. after_line l P (0 + length top + 1))
        (line_step_first mb.message mb.message_id w.action_word)
    ∙ read_headers mb.message mb.message_id [] mb.headers t (0 + length top + 1) w.has_action
        w.header_lines w.sorted

regroup :
    (a b p c rest : Bytes)
    → (a ++ (b ++ (10 ∷ (p ++ (10 ∷ c))))) ++ rest ≡ (a ++ b) ++ (10 ∷ (p ++ (10 ∷ (c ++ rest))))
regroup a b p c rest = simp append_assoc

-- A block as bytes, with `c` for its content.
abbrev raw : MessageBlock → Bytes → Bytes
raw mb c = mb.message ++ (print_id mb.message_id ++ (10 ∷ (print_headers mb.headers ++ (10 ∷ c))))

length-raw :
    (mb : MessageBlock) (c : Bytes)
    → length (raw mb c)
      ≡ 0
        + length (mb.message ++ print_id mb.message_id)
        + 1
        + length (print_headers mb.headers)
        + 1
        + length c
length-raw mb c = omega (
  arith,
  length-append mb.message (print_id mb.message_id),
  length-append mb.message
      (print_id mb.message_id ++ (10 ∷ (print_headers mb.headers ++ (10 ∷ c)))),
  length-append (print_id mb.message_id) (10 ∷ (print_headers mb.headers ++ (10 ∷ c))),
  length-append (print_headers mb.headers) (10 ∷ c),
)

-- A printed block is read if its end is.
read_raw :
    (mb r : MessageBlock) (c rest : Bytes)
    → IsPrintable mb
    → ((n : ℕ)
        → add_lines (reading mb.message mb.message_id mb.headers) [] (10 ∷ (c ++ rest)) n
          ≡ (ret (n + 1 + length c), r))
    → add_bytes (new []) (raw mb c ++ rest) ≡ (ret (length (raw mb c)), r)
unfolding add_bytes new
read_raw mb r c rest w end =
    ap (λ b. add_lines (reading [] [] []) [] b 0)
      (regroup mb.message (print_id mb.message_id) (print_headers mb.headers) c rest)
    ∙ read_lines mb (10 ∷ (c ++ rest)) w
    ∙ end _
    ∙ ap (λ k. (ret k, r)) (sym (length-raw mb c))

get_raw-raw :
    (mb : MessageBlock) (c : Bytes)
    → take mb.content_length (bytes_of mb.content) ≡ c
    → get_raw mb ≡ raw mb c
unfolding get_raw
get_raw-raw mb c e = ap (raw mb) e

-- A printable block that is printed and sent, followed by any bytes, is read back: the call uses
-- exactly the printed bytes, and gives the action, the message id, the headers and the content of
-- the block.
pub add_bytes-get_raw :
    (mb : MessageBlock) (rest : Bytes)
    → IsPrintable mb
    → add_bytes (new []) (get_raw mb ++ rest) ≡ (ret (length (get_raw mb)), received mb)
add_bytes-get_raw mb rest w = elim w.announced [
  | inl (e, d) ↦
      let shown : take mb.content_length (bytes_of mb.content) ≡ [] =
        ap (λ o. take mb.content_length (bytes_of o)) e ∙ take-nil mb.content_length in
      rw (get_raw-raw mb [] shown) (
        read_raw mb (received mb) [] rest w (λ n.
          read_end_empty mb.message mb.message_id mb.headers rest n w.has_action d
          ∙ ap₂ (λ k o. (ret k, received_with mb o)) (sym (add-zero (n + 1))) (sym e)))
  | inr (c, e, l, d, p, q) ↦
      let shown : take mb.content_length (bytes_of mb.content) ≡ c =
        ap₂ (λ k o. take k (bytes_of o)) l e ∙ take-length c in
      rw (get_raw-raw mb c shown) (
        read_raw mb (received mb) c rest w (λ n.
          read_end mb.message mb.message_id c mb.headers rest n w.has_action d p q
          ∙ ap (λ o. (ret (n + 1 + length c), received_with mb o)) (sym e)))
]

declared_length-some :
    (hs : Headers) (v : Bytes)
    → find (codes "content-length") hs ≡ some v
    → declared_length hs ≡ atol_int v
unfolding declared_length
declared_length-some hs v e = rw (e, declared_length)

find-put_self : (k v : Bytes) (m : Headers) → find k (put k v m) ≡ some v
find-put_self k v m = find-put k k v m ∙ rw (same_refl k)

-- `setContent` announces what it sets, if the length fits an `int`.
pub set_content-announced :
    (mb : MessageBlock) (c : ℕ) (cs : Bytes) (copy : Bool)
    → length (c ∷ cs) < 2 ^ 31
    → declared_length (set_content mb (some (c ∷ cs)) copy).headers ≡ length (c ∷ cs)
unfolding set_content
set_content-announced mb c cs copy h =
    declared_length-some _ (to_string (length (c ∷ cs)))
      (find-put_self (codes "content-length") (to_string (length (c ∷ cs))) mb.headers)
    ∙ atol_int-to_string (length (c ∷ cs)) h
