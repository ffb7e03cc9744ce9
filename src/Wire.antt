-- ===== src/Wire.antt =====
-- The binary messages between servers: `store` and `load` of src/act_submit.C, src/act_clarify.C,
-- src/act_startstop.C, src/act_passwd.C and src/act_bonus.C, and `checkStringTerms` of
-- src/message.C. A buffer is the list of its bytes, and a `uint32_t` in it is little-endian. A load
-- is given the length of the buffer as its size; `fault` is a read past the end of the buffer.
pub mod Words
pub mod Strings
pub mod Submission
pub mod Clarification
pub mod Small
use abacuscm.Prelude.{
  ℕ, zero, suc, ◌+◌, ◌-◌, ◌*◌, ◌/◌, ◌%◌, ◌^◌, ◌≤◌, ◌<◌, String, ◌≡◌, refl, sym, ap, ◌∙◌, subst, ◌≢◌,
  ◌↔◌, ◌⊎◌, inl, inr, Bool, true, false, not, ◌&&◌, ◌||◌, Option, none, some, List, [], ◌∷◌, ◌++◌,
  map, append-nil, append_assoc, arith, ltb, leb, ◌==◌, if◌then◌else◌, ltb→lt, lt→ltb, leb→le,
  ==_iff, ==_refl, ==_ne, Bool-cases, Option-cases, length, take, drop, length-append,
  take-length_append, take-length, take-append_ge, take-append_le, drop-length_append,
  take-append_drop, length-take, length-drop, All, All-append, list-cases, Bytes, codes, eq_bytes,
  lt_bytes, Lacks, eq_bytes_refl, eq_bytes→eq, eq_bytes_iff, lt_bytes-asymm, lt_bytes_irrefl,
  lt_bytes_trans, lt_bytes-connex, StrictOrder, nat_order, bytes_order, same, find, put, erase,
  same_refl, same→eq, find-put, find-erase, Below, IsSorted, put-Below, put-IsSorted,
  erase-IsSorted,
}

pub data Load {ℓ} (A : Type ℓ) : Type ℓ where
  fault : Load A
  -- `~0U`
  refused : Load A
  -- The message and the count of bytes that is returned.
  loaded : A → ℕ → Load A

-- `*(uint32_t*)pos = n; pos += sizeof(uint32_t);`
unfoldable pub put_word : ℕ → Bytes → Bytes
put_word n rest = n % 256 ∷ n / 256 % 256 ∷ n / 256 / 256 % 256 ∷ n / 256 / 256 / 256 % 256 ∷ rest

-- `w = *(uint32_t*)pos; pos += sizeof(uint32_t);` followed by `k` on the word and the rest.
unfoldable pub with_word {ℓ} : {A : Type ℓ} → Bytes → (ℕ → Bytes → Load A) → Load A
with_word (a ∷ b ∷ c ∷ d ∷ rest) k = k (a + 256 * (b + 256 * (c + 256 * d))) rest
with_word (a ∷ b ∷ c ∷ []) k = fault
with_word (a ∷ b ∷ []) k = fault
with_word (a ∷ []) k = fault
with_word [] k = fault

-- `checkStringTerms`, which is `none` where it reads past the end.
unfoldable pub check_string_terms : ℕ → ℕ → Bytes → Option Bool
check_string_terms zero nzeros buf = some (nzeros == 0)
check_string_terms (suc sz) zero buf = some true
check_string_terms (suc sz) (suc n) [] = none
check_string_terms (suc sz) (suc n) (b ∷ buf) =
    check_string_terms sz (if b == 0 then n else suc n) buf

-- `(char*)pos` as a `std::string`: what is in front of the first NUL, `none` if there is none.
unfoldable pub c_string : Bytes → Option Bytes
c_string [] = none
c_string (b ∷ buf) = elim (b == 0) [
  | true ↦ some []
  | false ↦ elim (c_string buf) [ none ↦ none | some s ↦ some (b ∷ s) ]
]

-- `strcpy(pos, s.c_str()); pos += s.length() + 1;` on the bytes from `pos` on: behind a NUL in the
-- string the bytes stay what they were.
unfoldable pub put_string : Bytes → Bytes → Bytes
put_string [] old = 0 ∷ drop 1 old
put_string (c ∷ s) old = if c == 0 then 0 ∷ drop 1 old else c ∷ put_string s (drop 1 old)

-- The end of a load: a string, of which `size` bytes are said to be left.
unfoldable pub load_string {ℓ} : {A : Type ℓ} → ℕ → ℕ → Bytes → (Bytes → A) → Load A
load_string used size pos make = elim (check_string_terms size 1 pos) [
  | none ↦ fault
  | some false ↦ refused
  | some true ↦ elim (c_string pos) [
    | none ↦ fault
    | some s ↦ loaded (make s) (used + length s + 1)
  ]
]
