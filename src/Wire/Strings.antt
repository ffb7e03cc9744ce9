-- ===== src/Wire/Strings.antt =====
-- The checks on strings in a buffer.
use abacuscm.Prelude.{
  ℕ, zero, suc, ◌+◌, ◌≤◌, ◌<◌, ◌≡◌, refl, ap, ◌∙◌, ◌≢◌, inl, inr, true, none, some, [], ◌∷◌, arith,
  ◌==◌, if◌then◌else◌, Bool-cases, Option-cases, length, drop, Bytes, Lacks, nat_order, bytes_order,
}
use abacuscm.Wire.{fault, loaded, check_string_terms, c_string, put_string, load_string}

-- Within the buffer the check does not fault.
pub check_string_terms-le :
    (sz n : ℕ) (buf : Bytes) → sz ≤ length buf → check_string_terms sz n buf ≢ none
unfolding check_string_terms
check_string_terms-le zero n buf h e = cc
check_string_terms-le (suc sz) zero buf h e = cc
check_string_terms-le (suc sz) (suc n) [] h e = absurd (omega arith)
check_string_terms-le (suc sz) (suc n) (b ∷ buf) h e =
    check_string_terms-le sz (if b == 0 then n else suc n) buf (omega arith) e

-- Where the check finds a NUL there is a string.
pub check_string_terms-c_string :
    (sz : ℕ) (buf : Bytes)
    → check_string_terms sz 1 buf ≡ some true
    → (s : Bytes) × (c_string buf ≡ some s)
unfolding check_string_terms c_string
check_string_terms-c_string zero buf h = cc
check_string_terms-c_string (suc sz) [] h = cc
check_string_terms-c_string (suc sz) (b ∷ buf) h = elim (Bool-cases (b == 0)) [
  | inl e ↦ ([], rw (e, c_string))
  | inr e ↦
      let (s, q) = check_string_terms-c_string sz buf (ground arith) in (b ∷ s, rw (e, c_string, q))
]

-- A load of a string faults only if its size is beyond the buffer.
pub load_string-fault {ℓ} :
    {A : Type ℓ} (used size : ℕ) (pos : Bytes) (make : Bytes → A)
    → size ≤ length pos
    → load_string used size pos make ≢ fault
unfolding load_string
load_string-fault used size pos make h e = elim (Option-cases (check_string_terms size 1 pos)) [
  | inl q ↦ check_string_terms-le size 1 pos h q
  | inr (b, q) ↦ elim (Bool-cases b) [
    | inr r ↦ ground (arith, q ∙ ap some r)
    | inl r ↦
        let (s, t) = check_string_terms-c_string size pos (q ∙ ap some r) in
        ground (arith, q ∙ ap some r, t)
  ]
]

-- A string without a NUL is read back.
pub c_string-put_string : (s old : Bytes) → Lacks 0 s → c_string (put_string s old) ≡ some s
unfolding c_string put_string
c_string-put_string [] old h = refl
c_string-put_string (c ∷ s) old h = ground (arith, c_string-put_string s (drop 1 old) h.1)

check-put_string :
    (s old : Bytes) (sz : ℕ)
    → Lacks 0 s
    → length s < sz
    → check_string_terms sz 1 (put_string s old) ≡ some true
unfolding check_string_terms put_string
check-put_string s old zero h k = absurd (omega arith)
check-put_string [] old (suc zero) h k = refl
check-put_string [] old (suc (suc sz)) h k = refl
check-put_string (c ∷ s) old (suc sz) h k =
    ground (arith, check-put_string s (drop 1 old) sz h.1 (omega arith))

pub load_string-put_string {ℓ} :
    {A : Type ℓ} (used size : ℕ) (s old : Bytes) (make : Bytes → A)
    → Lacks 0 s
    → length s < size
    → load_string used size (put_string s old) make ≡ loaded (make s) (used + length s + 1)
unfolding load_string
load_string-put_string used size s old make h k =
    rw (check-put_string s old size h k, load_string, c_string-put_string s old h)

pub length-put_string : (s old : Bytes) → Lacks 0 s → length s < length (put_string s old)
unfolding put_string
length-put_string [] old h = omega arith
length-put_string (c ∷ s) old h = ground (arith, length-put_string s (drop 1 old) h.1)
