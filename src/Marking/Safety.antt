-- ===== src/Marking/Safety.antt =====
-- Loading a mark message stays within the buffer, and its loop within the fuel.
use abacuscm.Prelude.{
  ℕ, zero, suc, ◌+◌, ◌-◌, ◌≤◌, ◌<◌, ◌≡◌, refl, ap, ◌∙◌, ◌≢◌, inl, inr, true, false, some, List,
  arith, ltb, leb, Bool-cases, Option-cases, length, drop, length-drop, Bytes, nat_order,
  bytes_order,
}
use abacuscm.Wire.{Load, fault, refused, loaded, check_string_terms}
use abacuscm.Wire.Words.{with_word_ok}
use abacuscm.Wire.Strings.{check_string_terms-le, check_string_terms-c_string}
use abacuscm.Marking.{File, push_file, load_files, with_files, load_comment, load}
use abacuscm.Marking.Files.{c_string-check_string_terms}

push_file-fault : (f : File) (l : Load (List File)) → l ≢ fault → push_file f l ≢ fault
unfolding push_file
push_file-fault f fault h e = h refl
push_file-fault f refused h e = cc
push_file-fault f (loaded fs n) h e = cc

with_files-fault :
    (sid marker result t srv : ℕ) (comment : Bytes) (l : Load (List File))
    → l ≢ fault
    → with_files sid marker result t srv comment l ≢ fault
unfolding with_files
with_files-fault sid marker result t srv comment fault h e = h refl
with_files-fault sid marker result t srv comment refused h e = cc
with_files-fault sid marker result t srv comment (loaded fs n) h e = cc

-- The part of a round behind the name of the file.
load_file-fault :
    (left len : ℕ) (data' : Bytes) (l : Load (List File)) (f : File)
    → left ≤ length data'
    → (len ≤ left → l ≢ fault)
    → elim (ltb left len) [
      | true ↦ refused
      | false ↦ elim (ltb (length data') len) [ true ↦ fault | false ↦ push_file f l ]
    ]
      ≢ fault
load_file-fault left len data' l f h k = elim (Bool-cases (ltb left len)) [
  | inl q ↦ rw q (λ e. cc)
  | inr q ↦
      let p : ltb (length data') len ≡ false = ground arith in
      rw (q, p) (push_file-fault f l (k (ground arith)))
]

load_files_safe :
    (fuel size : ℕ) (pos : Bytes) (used : ℕ)
    → size < fuel
    → size ≤ length pos
    → load_files fuel size pos used ≢ fault
unfolding load_files
load_files_safe zero size pos used h k = absurd (omega arith)
load_files_safe (suc fuel) size pos used h k = elim (Bool-cases (leb size 4)) [
  | inl q ↦ rw (q, load_files) (λ e. cc)
  | inr q ↦ elim (Option-cases (check_string_terms (size - 4) 1 pos)) [
    | inl n ↦ absurd (check_string_terms-le (size - 4) 1 pos (omega arith) n)
    | inr (b, c) ↦ elim (Bool-cases b) [
      | inr f ↦ rw (q, load_files, c ∙ ap some f) (λ e. cc)
      | inl t ↦
          let d : check_string_terms (size - 4) 1 pos ≡ some true = c ∙ ap some t in
          let (name, s) = check_string_terms-c_string (size - 4) pos d in
          let (x, y) = c_string-check_string_terms (size - 4) pos name d s in
          let l : length (drop (length name + 1) pos) + (length name + 1) ≡ length pos =
            length-drop (length name + 1) pos (omega (arith, y)) in
          let z : 4 < size = ground arith in
          rw (q, load_files, d, s)
            (with_word_ok (drop (length name + 1) pos) _ (omega (arith, l, x, k, z)) (λ len data' m.
              load_file-fault (size - (length name + 1) - 4) len data' _ _
                (omega (arith, l, m, x, k))
                (λ a.
                  load_files_safe fuel (size - (length name + 1) - 4 - len) (drop len data')
                    (used + (length name + 1) + 4 + len) (omega (arith, h, z))
                    (omega (
                      arith,
                      length-drop len data' (omega (arith, a, l, m, x, k)),
                      l,
                      m,
                      x,
                      k,
                      a,
                    )))))
    ]
  ]
]

load_comment_safe :
    (size sid marker result t srv : ℕ) (pos : Bytes)
    → size ≤ length pos
    → load_comment size sid marker result t srv pos ≢ fault
unfolding load_comment
load_comment_safe size sid marker result t srv pos h =
    elim (Option-cases (check_string_terms size 1 pos)) [
      | inl n ↦ absurd (check_string_terms-le size 1 pos h n)
      | inr (b, c) ↦ elim (Bool-cases b) [
        | inr f ↦ rw (c ∙ ap some f, load_comment) (λ e. cc)
        | inl t' ↦
            let d : check_string_terms size 1 pos ≡ some true = c ∙ ap some t' in
            let (comment, s) = check_string_terms-c_string size pos d in
            let (x, y) = c_string-check_string_terms size pos comment d s in
            let l : length (drop (length comment + 1) pos) + (length comment + 1) ≡ length pos =
              length-drop (length comment + 1) pos (omega (arith, y)) in
            rw (d, load_comment, s)
              (with_files-fault sid marker result t srv comment _ (
                load_files_safe (suc (size - (length comment + 1))) (size - (length comment + 1))
                  (drop (length comment + 1) pos) (20 + (length comment + 1)) (omega arith)
                  (omega (arith, l, x))))
      ]
    ]

-- Whatever a buffer holds, loading a mark message from it reads no byte behind its end, and its loop
-- over the files ends.
pub load_in_bounds : (buf : Bytes) → load buf ≢ fault
unfolding load
load_in_bounds buf = elim (Bool-cases (ltb (length buf) 20)) [
  | inl q ↦ rw (q, load) (λ e. cc)
  | inr q ↦
      rw (q, load)
        (with_word_ok buf _ (ground arith) (λ sid p1 h1.
          with_word_ok p1 _ (ground arith) (λ marker p2 h2.
            with_word_ok p2 _ (ground arith) (λ result p3 h3.
              with_word_ok p3 _ (ground arith) (λ t p4 h4.
                with_word_ok p4 _ (ground arith) (λ srv p5 h5.
                  load_comment_safe (length buf - 20) sid marker result t srv p5
                    (omega (arith, h1, h2, h3, h4, h5))))))))
]
