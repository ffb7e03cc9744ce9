-- ===== src/Actions/Beyond.antt =====
-- Where the loop over the files of a mark copies from beyond the content, and that it ends within its
-- fuel.
use abacuscm.Prelude.{
  ℕ, zero, suc, ◌+◌, ◌≤◌, ◌<◌, ◌≡◌, refl, sym, ap, ◌∙◌, subst, ◌≢◌, ◌⊎◌, inl, inr, true, false,
  none, some, List, [], ◌∷◌, arith, leb, ◌==◌, ==_iff, Bool-cases, Option-cases, length, drop,
  Bytes, nat_order, bytes_order, same, find, erase, same→eq, find-erase,
}
use abacuscm.Decimal.{digits_value}
use abacuscm.Decimal.RoundTrip.{digits_value-to_string}
use abacuscm.MessageBlock.{MessageBlock, header, has_attribute, bytes_of}
use abacuscm.Marking.{MarkMessage, add_file}
use abacuscm.Actions.PlaceMark.{parse_description, slice, file_name, collect_files}

-- The number `c` has a description of some bytes that do not all lie within the content.
pub record IsBeyond (mb : MessageBlock) (c : ℕ) : Type 0 where
  pub start : ℕ
  pub size : ℕ
  pub name : Bytes
  pub parsed : parse_description (header mb (file_name c)) ≡ some (start, size, name)
  pub some_bytes : (size == 0) ≡ false
  pub beyond : length (bytes_of mb.content) < start + size

-- Every description of a file that the request has is of no bytes or lies within its content.
abbrev pub IsInside : MessageBlock → Type 0
IsInside mb =
    (c start size : ℕ) (name : Bytes)
    → parse_description (header mb (file_name c)) ≡ some (start, size, name)
    → (size ≡ 0) ⊎ (start + size ≤ length (bytes_of mb.content))

-- The request has a file for every number from `c` up to `k`.
abbrev pub HasFiles : MessageBlock → ℕ → ℕ → Type 0
HasFiles mb c k = (j : ℕ) → c ≤ j → j ≤ k → has_attribute mb (file_name j) ≡ true

file_name_inj : (i j : ℕ) → file_name i ≡ file_name j → i ≡ j
unfolding file_name
file_name_inj i j h =
    sym (digits_value-to_string i)
    ∙ ap (λ t. digits_value 0 (drop 4 t)) h
    ∙ digits_value-to_string j

length-erase_le : (k : Bytes) (m : List (Bytes × Bytes)) → length (erase k m) ≤ length m
unfolding erase
length-erase_le k [] = omega arith
length-erase_le k ((j, v) ∷ m) = ground (arith, length-erase_le k m)

length-erase :
    (k : Bytes) (m : List (Bytes × Bytes)) → find k m ≢ none → length (erase k m) < length m
unfolding find erase
length-erase k [] h = absurd (h refl)
length-erase k ((j, v) ∷ m) h = elim (Bool-cases (same j k)) [
  | inl e ↦ ground (arith, e, length-erase_le k m)
  | inr e ↦ ground (arith, e, length-erase k m)
]

-- The headers that are left for the files from the number `c` on.
abbrev pub Left : MessageBlock → ℕ → List (Bytes × Bytes) → Type 0
Left mb c hs = (j : ℕ) → c ≤ j → find (file_name j) mb.headers ≡ find (file_name j) hs

erase-Left :
    (mb : MessageBlock) (c : ℕ) (hs : List (Bytes × Bytes))
    → Left mb c hs
    → Left mb (suc c) (erase (file_name c) hs)
erase-Left mb c hs h j k =
    let q : same (file_name c) (file_name j) ≡ false =
      elim (Bool-cases (same (file_name c) (file_name j))) [
        | inl e ↦
            absurd (omega (arith, k, file_name_inj c j (same→eq (file_name c) (file_name j) e)))
        | inr e ↦ e
      ] in
    let e : find (file_name j) (erase (file_name c) hs) ≡ find (file_name j) hs =
      find-erase (file_name c) (file_name j) hs ∙ rw q refl in
    h j (omega arith) ∙ sym e

slice_beyond :
    (content : Bytes) (start size : ℕ)
    → (size == 0) ≡ false
    → length content < start + size
    → slice content start size ≡ none
unfolding slice
slice_beyond content start size z o = ground arith

slice-none :
    (content : Bytes) (start size : ℕ)
    → slice content start size ≡ none
    → ((size == 0) ≡ false) × (length content < start + size)
unfolding slice
slice-none content start size h = elim (Bool-cases (size == 0)) [
  | inl z ↦ absurd (ground (arith, h, z))
  | inr z ↦ elim (Bool-cases (leb (start + size) (length content))) [
    | inl q ↦ absurd (ground (arith, h, z, q))
    | inr q ↦ (z, ground (arith, q))
  ]
]

-- Where the loop does not end with a mark, it has come to a file that lies beyond the content.
pub collect_files-IsBeyond :
    (fuel c : ℕ) (mb : MessageBlock) (m : MarkMessage) (hs : List (Bytes × Bytes))
    → Left mb c hs
    → length hs < fuel
    → collect_files fuel c mb m ≡ none
    → (k : ℕ) × (c ≤ k) × HasFiles mb c k × IsBeyond mb k
unfolding collect_files has_attribute
collect_files-IsBeyond zero c mb m hs l h e = absurd (omega arith)
collect_files-IsBeyond (suc fuel) c mb m hs l h e =
    elim (Option-cases (find (file_name c) mb.headers)) [
      | inl n ↦ absurd (ground (arith, n, e))
      | inr (v, n) ↦
          let present : has_attribute mb (file_name c) ≡ true = rw (has_attribute, n) refl in
          let t : find (file_name c) hs ≢ none = λ q. ground (arith, n, l c (omega arith), q) in
          let shorter : length (erase (file_name c) hs) < fuel =
            omega (arith, length-erase (file_name c) hs t) in
          let l' : Left mb (suc c) (erase (file_name c) hs) = erase-Left mb c hs l in
          elim (Option-cases (parse_description (header mb (file_name c)))) [
            | inl d ↦ from_next mb c present (
                collect_files-IsBeyond fuel (suc c) mb m (erase (file_name c) hs) l' shorter
                  (ground (arith, n, d, e)))
            | inr ((start, size, name), d) ↦
                elim (Option-cases (slice (bytes_of mb.content) start size)) [
                  | inl o ↦
                      let (z, b) = slice-none (bytes_of mb.content) start size o in
                      (
                        c,
                        omega arith,
                        λ j p q.
                            subst (λ i. has_attribute mb (file_name i) ≡ true) (omega arith)
                              present,
                        record {
                          start = start;
                          size = size;
                          name = name;
                          parsed = d;
                          some_bytes = z;
                          beyond = b;
                        },
                      )
                  | inr (bytes, o) ↦ from_next mb c present (
                      collect_files-IsBeyond fuel (suc c) mb (add_file name bytes m)
                        (erase (file_name c) hs) l' shorter (ground (arith, n, d, o, e)))
                ]
          ]
    ]
  where
    from_next :
        (mb : MessageBlock) (c : ℕ)
        → has_attribute mb (file_name c) ≡ true
        → ((k : ℕ) × (suc c ≤ k) × HasFiles mb (suc c) k × IsBeyond mb k)
        → (k : ℕ) × (c ≤ k) × HasFiles mb c k × IsBeyond mb k
    from_next mb c present (k, le, files, b) = (
      k,
      omega arith,
      λ j p q. elim (Bool-cases (c == j)) [
        | inl e ↦ subst (λ i. has_attribute mb (file_name i) ≡ true) ((==_iff c j).0 e) present
        | inr e ↦ files j (ground arith) q
      ],
      b,
    )

-- The loop comes to a file that lies beyond the content, whatever the files before it are.
pub collect_files_beyond :
    (fuel c k : ℕ) (mb : MessageBlock) (m : MarkMessage)
    → c ≤ k
    → HasFiles mb c k
    → IsBeyond mb k
    → collect_files fuel c mb m ≡ none
unfolding collect_files
collect_files_beyond zero c k mb m le files b = refl
collect_files_beyond (suc fuel) c k mb m le files b =
    let present : has_attribute mb (file_name c) ≡ true = files c (omega arith) le in
    elim (Bool-cases (c == k)) [
      | inl e ↦
          let q : c ≡ k = (==_iff c k).0 e in
          let d = ap (λ i. parse_description (header mb (file_name i))) q ∙ b.parsed in
          rw
            (
              present,
              collect_files,
              d,
              slice_beyond (bytes_of mb.content) b.start b.size b.some_bytes b.beyond,
            )
            refl
      | inr e ↦
          let rest : (n : MarkMessage) → collect_files fuel (suc c) mb n ≡ none = λ n.
            collect_files_beyond fuel (suc c) k mb n (ground arith)
              (λ j p q. files j (omega arith) q) b in
          elim (Option-cases (parse_description (header mb (file_name c)))) [
            | inl d ↦ rw (present, collect_files, d) (rest m)
            | inr ((start, size, name), d) ↦
                elim (Option-cases (slice (bytes_of mb.content) start size)) [
                  | inl o ↦ rw (present, collect_files, d, o) refl
                  | inr (bytes, o) ↦
                      rw (present, collect_files, d, o) (rest (add_file name bytes m))
                ]
          ]
    ]
