-- ===== src/Marking/RoundTrip.antt =====
-- A mark message is read back from the bytes that it was stored as, with all its files.
use abacuscm.Prelude.{
  ℕ, zero, suc, ◌+◌, ◌-◌, ◌%◌, ◌^◌, ◌<◌, ◌≡◌, refl, sym, ap, ◌∙◌, true, false, some, List, [], ◌∷◌,
  ◌++◌, arith, ltb, leb, length, drop, length-append, take-length_append, drop-length_append,
  length-drop, All, Bytes, Lacks, nat_order, bytes_order,
}
use abacuscm.Wire.{loaded, put_word, check_string_terms, c_string}
use abacuscm.Wire.Words.{with_word-put_word, length-put_word}
use abacuscm.Marking.{
  File, MarkMessage, files_size, storage_required, put_text, store_files, store, push_file,
  load_files, with_files, load_comment, load,
}
use abacuscm.Marking.Files.{
  c_string-append, check_string_terms-append, drop-append_nul, put_text-Lacks, IsFile, files_bytes,
  length-files_bytes, store_files-files_bytes,
}

load_files-files_bytes :
    (fs : List File) (fuel used : ℕ)
    → All IsFile fs
    → files_size fs < fuel
    → load_files fuel (files_size fs) (files_bytes fs) used ≡ loaded fs (used + files_size fs)
unfolding load_files files_size files_bytes push_file
load_files-files_bytes fs zero used w h = absurd (omega arith)
load_files-files_bytes [] (suc fuel) used w h = ap (loaded []) (omega arith)
load_files-files_bytes (f ∷ fs) (suc fuel) used w h =
    let n : ℕ = length f.name + 1 in
    let len : ℕ = length f.content in
    let rest : Bytes = files_bytes fs in
    let size : ℕ = n + 4 + len + files_size fs in
    let q1 : leb size 4 ≡ false = ground arith in
    let q2 : check_string_terms (size - 4) 1 (f.name ++ 0 ∷ put_word len (f.content ++ rest))
        ≡ some true =
      check_string_terms-append f.name (put_word len (f.content ++ rest)) (size - 4) w.0.0
        (omega arith) in
    let q3 : c_string (f.name ++ 0 ∷ put_word len (f.content ++ rest)) ≡ some f.name =
      c_string-append f.name (put_word len (f.content ++ rest)) w.0.0 in
    let q4 : drop n (f.name ++ 0 ∷ put_word len (f.content ++ rest))
        ≡ put_word len (f.content ++ rest) =
      drop-append_nul f.name (put_word len (f.content ++ rest)) in
    let q5 : ltb (size - n - 4) len ≡ false = ground arith in
    let q6 : ltb (length (f.content ++ rest)) len ≡ false =
      ground (arith, length-append f.content rest) in
    let q7 : size - n - 4 - len ≡ files_size fs = omega arith in
    let q8 : used + n + 4 + len + files_size fs ≡ used + size = omega arith in
    rw (q1, load_files, q2, q3, q4)
      (with_word-put_word len (f.content ++ rest) _ w.0.1
        ∙ rw
            (
              q5,
              q6,
              q7,
              take-length_append f.content rest,
              drop-length_append f.content rest,
              load_files-files_bytes fs fuel (used + n + 4 + len) w.1 (omega arith),
            )
            (ap (loaded (f ∷ fs)) q8))

-- The numbers fit their 32 bits, the texts have no NUL, and the size does not wrap.
pub record IsMark (m : MarkMessage) : Type 0 where
  pub small_submission_id : m.submission_id < 2 ^ 32
  pub small_marker : m.marker < 2 ^ 32
  pub small_result : m.result < 2 ^ 32
  pub small_time : m.time < 2 ^ 32
  pub small_server_id : m.server_id < 2 ^ 32
  pub plain_comment : Lacks 0 m.comment
  pub good_files : All IsFile m.files
  pub small_size : 20 + length m.comment + 1 + files_size m.files < 2 ^ 32 - 1

-- The bytes of a message in a buffer of the size that is required.
abbrev words : ℕ → ℕ → ℕ → ℕ → ℕ → Bytes → Bytes
words a b c d e pos = put_word a (put_word b (put_word c (put_word d (put_word e pos))))

abbrev text_bytes : Bytes → List File → Bytes
text_bytes comment fs = comment ++ 0 ∷ files_bytes fs

length-text_bytes :
    (comment : Bytes) (fs : List File)
    → length (text_bytes comment fs) ≡ length comment + 1 + files_size fs
length-text_bytes comment fs =
    omega (arith, length-append comment (0 ∷ files_bytes fs), length-files_bytes fs)

load_comment-text_bytes :
    (a b c d e : ℕ) (comment : Bytes) (fs : List File)
    → Lacks 0 comment
    → All IsFile fs
    → load_comment (length comment + 1 + files_size fs) a b c d e (text_bytes comment fs)
      ≡ loaded
          (record {
            submission_id = a;
            marker = b;
            result = c;
            time = d;
            server_id = e;
            comment = comment;
            files = fs;
          })
          (20 + length comment + 1 + files_size fs)
unfolding load_comment with_files
load_comment-text_bytes a b c d e comment fs h w =
    let size : ℕ = length comment + 1 + files_size fs in
    let q1 : check_string_terms size 1 (text_bytes comment fs) ≡ some true =
      check_string_terms-append comment (files_bytes fs) size h (omega arith) in
    let q2 : c_string (text_bytes comment fs) ≡ some comment =
      c_string-append comment (files_bytes fs) h in
    let q3 : drop (length comment + 1) (text_bytes comment fs) ≡ files_bytes fs =
      drop-append_nul comment (files_bytes fs) in
    let q4 : size - (length comment + 1) ≡ files_size fs = omega arith in
    let q5 : 20 + (length comment + 1) + files_size fs ≡ 20 + length comment + 1 + files_size fs =
      omega arith in
    rw
      (
        q1,
        load_comment,
        q2,
        q3,
        q4,
        load_files-files_bytes fs (suc (files_size fs)) (20 + (length comment + 1)) w (omega arith),
      )
      (ap
        (loaded (record {
          submission_id = a;
          marker = b;
          result = c;
          time = d;
          server_id = e;
          comment = comment;
          files = fs;
        }))
        q5)

load-words :
    (a b c d e : ℕ) (pos : Bytes)
    → a < 2 ^ 32
    → b < 2 ^ 32
    → c < 2 ^ 32
    → d < 2 ^ 32
    → e < 2 ^ 32
    → load (words a b c d e pos) ≡ load_comment (length pos) a b c d e pos
unfolding load
load-words a b c d e pos ha hb hc hd he =
    let l : length (words a b c d e pos) ≡ 20 + length pos = omega (
      arith,
      length-put_word a (put_word b (put_word c (put_word d (put_word e pos)))),
      length-put_word b (put_word c (put_word d (put_word e pos))),
      length-put_word c (put_word d (put_word e pos)),
      length-put_word d (put_word e pos),
      length-put_word e pos,
    ) in
    let q : ltb (20 + length pos) 20 ≡ false = ground arith in
    let z : 20 + length pos - 20 ≡ length pos = omega arith in
    rw (l, load, q)
      (with_word-put_word a _ _ ha
        ∙ with_word-put_word b _ _ hb
        ∙ with_word-put_word c _ _ hc
        ∙ with_word-put_word d _ _ hd
        ∙ with_word-put_word e _ _ he
        ∙ ap (λ n. load_comment n a b c d e pos) z)

store-words :
    (m : MarkMessage) (old buf : Bytes)
    → IsMark m
    → length old ≡ 20 + length m.comment + 1 + files_size m.files
    → store m old ≡ some buf
    → buf
      ≡ words m.submission_id m.marker m.result m.time m.server_id (text_bytes m.comment m.files)
unfolding store
store-words m old buf w h e =
    let q : ltb (length old) (20 + length m.comment + 1 + files_size m.files) ≡ false =
      ground arith in
    let d : length (drop 20 old) + 20 ≡ length old = length-drop 20 old (omega arith) in
    let l : length (drop (length m.comment + 1) (drop 20 old)) + (length m.comment + 1)
        ≡ length (drop 20 old) =
      length-drop (length m.comment + 1) (drop 20 old) (omega (arith, d)) in
    let t : put_text m.comment (store_files m.files) (drop 20 old) ≡ text_bytes m.comment m.files =
      put_text-Lacks m.comment (store_files m.files) (drop 20 old) w.plain_comment
      ∙ ap (λ r. m.comment ++ 0 ∷ r)
          (store_files-files_bytes m.files (drop (length m.comment + 1) (drop 20 old)) w.good_files
            (omega (arith, d, l))) in
    let s : store m old
        ≡ some (
            words m.submission_id m.marker m.result m.time m.server_id
              (put_text m.comment (store_files m.files) (drop 20 old))) =
      rw (q, store) refl in
    some_inj buf _ (sym e ∙ s) ∙ ap (words m.submission_id m.marker m.result m.time m.server_id) t
  where
    some_inj : (a b : Bytes) → some a ≡ some b → a ≡ b
    some_inj a b h = cc

-- A mark message whose numbers fit their 32 bits and whose comment and names have no NUL is read
-- back, with all its files and their data, from the bytes that `store` wrote into a buffer of the
-- size that it requires.
pub load-store_mark :
    (m : MarkMessage) (old buf : Bytes)
    → IsMark m
    → length old ≡ storage_required m
    → store m old ≡ some buf
    → load buf ≡ loaded m (storage_required m)
unfolding storage_required
load-store_mark m old buf w h e =
    let z : (20 + length m.comment + 1 + files_size m.files) % 2 ^ 32
        ≡ 20 + length m.comment + 1 + files_size m.files =
      omega (arith, w.small_size) in
    let b : buf
        ≡ words m.submission_id m.marker m.result m.time m.server_id
            (text_bytes m.comment m.files) =
      store-words m old buf w (h ∙ z) e in
    ap load b
    ∙ load-words m.submission_id m.marker m.result m.time m.server_id (text_bytes m.comment m.files)
        w.small_submission_id w.small_marker w.small_result w.small_time w.small_server_id
    ∙ ap
        (λ n.
          load_comment n m.submission_id m.marker m.result m.time m.server_id
            (text_bytes m.comment m.files))
        (length-text_bytes m.comment m.files)
    ∙ load_comment-text_bytes m.submission_id m.marker m.result m.time m.server_id m.comment m.files
        w.plain_comment w.good_files
    ∙ ap (loaded m) (sym z)
