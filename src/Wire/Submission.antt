-- ===== src/Wire/Submission.antt =====
-- `SubmissionMessage` of src/act_submit.C: its bytes.
use abacuscm.Prelude.{
  ℕ, ◌+◌, ◌-◌, ◌^◌, ◌<◌, ◌≡◌, refl, sym, ◌∙◌, subst, inl, inr, false, Option, none, some, [], ◌∷◌,
  ◌++◌, arith, ltb, if◌then◌else◌, Bool-cases, length, take, drop, length-append,
  take-length_append, drop-length_append, Bytes, Lacks, nat_order, bytes_order,
}
use abacuscm.Wire.{
  Load, fault, refused, loaded, put_word, with_word, check_string_terms, put_string, load_string,
}
use abacuscm.Wire.Words.{with_word-put_word}
use abacuscm.Wire.Strings.{load_string-put_string, length-put_string}

pub record SubmissionMessage : Type 0 where
  pub submission_id : ℕ
  pub user_id : ℕ
  pub prob_id : ℕ
  pub time : ℕ
  pub server_id : ℕ
  pub content : Bytes
  pub language : Bytes

-- `storageRequired`. The source adds in `uint32_t`, which makes a difference for texts of four gigabytes
-- on.
unfoldable pub storage_required : SubmissionMessage → ℕ
storage_required m = 24 + length m.content + length m.language + 1

-- `store` on a buffer that holds `old`: `none` where it writes past its end.
unfoldable pub store : SubmissionMessage → Bytes → Option Bytes
store m old =
    if ltb (length old) (storage_required m)
    then none
    else some (
        put_word m.submission_id (
          put_word m.user_id (
            put_word m.prob_id (
              put_word m.time (
                put_word m.server_id (
                  put_word (length m.content)
                    (m.content ++ put_string m.language (drop (24 + length m.content) old))))))))

-- `size -= 5 * sizeof(uint32_t)`, though six words have been read.
unfoldable pub load_content : ℕ → ℕ → ℕ → ℕ → ℕ → ℕ → ℕ → Bytes → Load SubmissionMessage
load_content size sid uid pid t srv n pos =
    if ltb (size - 20) n
    then refused
    else if ltb (length pos) n
    then fault
    else load_string (24 + n) (size - 20 - n) (drop n pos) (λ lang. record {
      submission_id = sid;
      user_id = uid;
      prob_id = pid;
      time = t;
      server_id = srv;
      content = take n pos;
      language = lang;
    })

unfoldable pub load : Bytes → Load SubmissionMessage
load buf =
    if ltb (length buf) 24
    then refused
    else with_word buf (λ sid p1. with_word p1 (λ uid p2. with_word p2 (λ pid p3.
      with_word p3 (λ t p4.
        with_word p4
          (λ srv p5. with_word p5 (λ n p6. load_content (length buf) sid uid pid t srv n p6))))))

-- The bytes that `store` writes.
stored : SubmissionMessage → Bytes → Bytes
stored m old = put_word m.submission_id (
    put_word m.user_id (
      put_word m.prob_id (
        put_word m.time (
          put_word m.server_id (
            put_word (length m.content)
              (m.content ++ put_string m.language (drop (24 + length m.content) old)))))))

-- Every number fits its 32 bits.
pub record IsEncodable (m : SubmissionMessage) : Type 0 where
  pub small_submission_id : m.submission_id < 2 ^ 32
  pub small_user_id : m.user_id < 2 ^ 32
  pub small_prob_id : m.prob_id < 2 ^ 32
  pub small_time : m.time < 2 ^ 32
  pub small_server_id : m.server_id < 2 ^ 32
  pub small_content : length m.content < 2 ^ 32
  pub plain_language : Lacks 0 m.language

abbrev words : (a b c d e n : ℕ) → Bytes → Bytes
words a b c d e n pos =
    put_word a (put_word b (put_word c (put_word d (put_word e (put_word n pos)))))

length-words : (a b c d e n : ℕ) (pos : Bytes) → length (words a b c d e n pos) ≡ 24 + length pos
unfolding put_word
length-words a b c d e n pos = omega arith

load-words :
    (a b c d e n : ℕ) (pos : Bytes)
    → a < 2 ^ 32
    → b < 2 ^ 32
    → c < 2 ^ 32
    → d < 2 ^ 32
    → e < 2 ^ 32
    → n < 2 ^ 32
    → load (words a b c d e n pos) ≡ load_content (24 + length pos) a b c d e n pos
unfolding load
load-words a b c d e n pos ha hb hc hd he hn =
    let l : length (words a b c d e n pos) ≡ 24 + length pos = length-words a b c d e n pos in
    let q : ltb (24 + length pos) 24 ≡ false = ground arith in
    rw (l, load, q)
      (with_word-put_word a _ _ ha
        ∙ with_word-put_word b _ _ hb
        ∙ with_word-put_word c _ _ hc
        ∙ with_word-put_word d _ _ hd
        ∙ with_word-put_word e _ _ he
        ∙ with_word-put_word n _ _ hn)

drop-all : (xs : Bytes) → drop (length xs) xs ≡ []
drop-all [] = refl
drop-all (x ∷ xs) = drop-all xs

load_content-stored :
    (a b c d e : ℕ) (content lang old : Bytes)
    → Lacks 0 lang
    → load_content
        (24 + length (content ++ put_string lang old))
        a
        b
        c
        d
        e
        (length content)
        (content ++ put_string lang old)
      ≡ loaded
          (record {
            submission_id = a;
            user_id = b;
            prob_id = c;
            time = d;
            server_id = e;
            content = content;
            language = lang;
          })
          (24 + length content + length lang + 1)
unfolding load_content
load_content-stored a b c d e content lang old h =
    let l : length (content ++ put_string lang old)
        ≡ length content + length (put_string lang old) =
      length-append content (put_string lang old) in
    let p : ltb (24 + length (content ++ put_string lang old) - 20) (length content) ≡ false =
      ground arith in
    let q : ltb (length (content ++ put_string lang old)) (length content) ≡ false = ground arith in
    rw
      (
        p,
        load_content,
        q,
        drop-length_append content (put_string lang old),
        take-length_append content (put_string lang old),
      )
      (load_string-put_string _ _ lang old _ h (omega (arith, length-put_string lang old h)))

some_inj : (a b : Bytes) → some a ≡ some b → a ≡ b
some_inj a b h = cc

store-stored :
    (m : SubmissionMessage) (old buf : Bytes) → store m old ≡ some buf → stored m old ≡ buf
unfolding store stored
store-stored m old buf e = elim (Bool-cases (ltb (length old) (storage_required m))) [
  | inl h ↦ absurd (ground arith)
  | inr h ↦ some_inj (stored m old) buf (sym (rw (h, store)) ∙ e)
]

-- A submission whose numbers fit their 32 bits and whose language has no NUL is read back from the
-- bytes that `store` wrote into any buffer that is large enough, and the count is that of
-- `storageRequired`.
pub load-store :
    (m : SubmissionMessage) (old buf : Bytes)
    → IsEncodable m
    → store m old ≡ some buf
    → load buf ≡ loaded m (storage_required m)
unfolding storage_required stored
load-store m old buf w e =
    let q : stored m old ≡ buf = store-stored m old buf e in
    subst (λ b. load b ≡ loaded m (storage_required m)) q
      (load-words m.submission_id m.user_id m.prob_id m.time m.server_id (length m.content) _
          w.small_submission_id w.small_user_id w.small_prob_id w.small_time w.small_server_id
          w.small_content
        ∙ load_content-stored m.submission_id m.user_id m.prob_id m.time m.server_id m.content
            m.language (drop (24 + length m.content) old) w.plain_language)

-- A submission message that ends behind its content, so that the string is missing, is not refused:
-- its load reads past the end of the buffer.
pub load-overrun :
    (a b c d e : ℕ) (content : Bytes)
    → a < 2 ^ 32
    → b < 2 ^ 32
    → c < 2 ^ 32
    → d < 2 ^ 32
    → e < 2 ^ 32
    → length content < 2 ^ 32
    → load (
        put_word a
          (put_word b (put_word c (put_word d (put_word e (put_word (length content) content))))))
      ≡ fault
unfolding load_content load_string check_string_terms
load-overrun a b c d e content ha hb hc hd he hn =
    let p : ltb (24 + length content - 20) (length content) ≡ false = ground arith in
    let q : ltb (length content) (length content) ≡ false = ground arith in
    let r : 24 + length content - 20 - length content ≡ 4 = omega arith in
    let d0 : drop (length content) content ≡ [] = drop-all content in
    load-words a b c d e (length content) content ha hb hc hd he hn ∙ rw (p, load_content, q, r, d0)
