-- ===== src/Marking/Files.antt =====
-- The files in a mark message: the names end within the size, and what is stored has the size that
-- `storageRequired` says.
use abacuscm.Prelude.{
  ℕ, zero, suc, ◌+◌, ◌^◌, ◌<◌, ◌≡◌, refl, sym, ap, ◌∙◌, subst, inl, inr, true, false, some, List,
  [], ◌∷◌, ◌++◌, arith, ◌==◌, Bool-cases, Option-cases, length, drop, length-append, length-drop,
  All, Bytes, Lacks, nat_order, bytes_order,
}
use abacuscm.Wire.{put_word, check_string_terms, c_string}
use abacuscm.Wire.Words.{length-put_word}
use abacuscm.Marking.{File, files_size, put_text, store_files}

-- Where the check finds a NUL the string ends in front of it.
pub c_string-check_string_terms :
    (sz : ℕ) (buf s : Bytes)
    → check_string_terms sz 1 buf ≡ some true
    → c_string buf ≡ some s
    → (length s < sz) × (length s < length buf)
unfolding check_string_terms c_string
c_string-check_string_terms zero buf s h e = cc
c_string-check_string_terms (suc sz) [] s h e = cc
c_string-check_string_terms (suc sz) (b ∷ buf) s h e = elim (Bool-cases (b == 0)) [
  | inl q ↦
      let t : [] ≡ s = ground (arith, q) in
      subst (λ x. (length x < suc sz) × (length x < suc (length buf))) t (omega arith, omega arith)
  | inr q ↦ elim (Option-cases (c_string buf)) [
    | inl n ↦ absurd (ground (arith, q, n))
    | inr (r, n) ↦
        let t : b ∷ r ≡ s = ground (arith, q, n) in
        let (x, y) = c_string-check_string_terms sz buf r (ground (arith, q)) n in
        subst (λ x. (length x < suc sz) × (length x < suc (length buf))) t
          (omega (arith, x), omega (arith, y))
  ]
]

pub c_string-append : (s rest : Bytes) → Lacks 0 s → c_string (s ++ 0 ∷ rest) ≡ some s
unfolding c_string
c_string-append [] rest h = refl
c_string-append (c ∷ s) rest h = ground (arith, c_string-append s rest h.1)

pub check_string_terms-append :
    (s rest : Bytes) (sz : ℕ)
    → Lacks 0 s
    → length s < sz
    → check_string_terms sz 1 (s ++ 0 ∷ rest) ≡ some true
unfolding check_string_terms
check_string_terms-append s rest zero h k = absurd (omega arith)
check_string_terms-append [] rest (suc zero) h k = refl
check_string_terms-append [] rest (suc (suc sz)) h k = refl
check_string_terms-append (c ∷ s) rest (suc sz) h k =
    ground (arith, check_string_terms-append s rest sz h.1 (omega arith))

pub drop-append_nul : (s rest : Bytes) → drop (length s + 1) (s ++ 0 ∷ rest) ≡ rest
drop-append_nul [] rest = refl
drop-append_nul (c ∷ s) rest =
    let e : length (c ∷ s) + 1 ≡ suc (length s + 1) = omega arith in
    ap (λ n. drop n (c ∷ s ++ 0 ∷ rest)) e ∙ drop-append_nul s rest

-- A string without a NUL is copied as a whole.
pub put_text-Lacks :
    (s : Bytes) (k : Bytes → Bytes) (old : Bytes)
    → Lacks 0 s
    → put_text s k old ≡ s ++ 0 ∷ k (drop (length s + 1) old)
unfolding put_text
put_text-Lacks [] k old h = refl
put_text-Lacks (c ∷ s) k old h =
    let q : (c == 0) ≡ false = ground arith in
    rw (q, put_text)
      (ap (◌∷◌ c)
        (put_text-Lacks s k (drop 1 old) h.1 ∙ ap (λ r. s ++ 0 ∷ k r) (drop-drop old (length s))))
  where
    drop-drop : (xs : Bytes) (n : ℕ) → drop (n + 1) (drop 1 xs) ≡ drop (suc n + 1) xs
    drop-drop [] n =
        let e : n + 1 ≡ suc n = omega arith in
        let f : suc n + 1 ≡ suc (suc n) = omega arith in
        ap (λ m. drop m []) e ∙ sym (ap (λ m. drop {A = ℕ} m []) f)
    drop-drop (x ∷ xs) n =
        let f : suc n + 1 ≡ suc (n + 1) = omega arith in sym (ap (λ m. drop m (x ∷ xs)) f)

-- Every name is without a NUL and every length fits its 32 bits.
abbrev pub IsFile : File → Type 0
IsFile f = Lacks 0 f.name × (length f.content < 2 ^ 32)

-- The bytes of the files one behind the other.
unfoldable pub files_bytes : List File → Bytes
files_bytes [] = []
files_bytes (f ∷ fs) = f.name ++ 0 ∷ put_word (length f.content) (f.content ++ files_bytes fs)

pub length-files_bytes : (fs : List File) → length (files_bytes fs) ≡ files_size fs
unfolding files_bytes files_size
length-files_bytes [] = refl
length-files_bytes (f ∷ fs) = omega (
  arith,
  length-append f.name (0 ∷ put_word (length f.content) (f.content ++ files_bytes fs)),
  length-put_word (length f.content) (f.content ++ files_bytes fs),
  length-append f.content (files_bytes fs),
  length-files_bytes fs,
)

-- In a buffer of the size that is required nothing else is left.
pub store_files-files_bytes :
    (fs : List File) (old : Bytes)
    → All IsFile fs
    → length old ≡ files_size fs
    → store_files fs old ≡ files_bytes fs
unfolding store_files files_bytes files_size
store_files-files_bytes [] [] w h = refl
store_files-files_bytes [] (x ∷ old) w h = absurd (omega arith)
store_files-files_bytes (f ∷ fs) old w h =
    let n : ℕ = length f.name + 1 in
    let a : length (drop n old) + n ≡ length old = length-drop n old (omega arith) in
    let b : length (drop (4 + length f.content) (drop n old)) + (4 + length f.content)
        ≡ length (drop n old) =
      length-drop (4 + length f.content) (drop n old) (omega (arith, a)) in
    put_text-Lacks f.name _ old w.0.0
    ∙ ap (λ r. f.name ++ 0 ∷ put_word (length f.content) (f.content ++ r))
        (store_files-files_bytes fs (drop (4 + length f.content) (drop n old)) w.1
          (omega (arith, a, b)))
