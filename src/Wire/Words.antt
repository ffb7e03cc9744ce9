-- ===== src/Wire/Words.antt =====
-- Words and the bytes that they are stored as.
use abacuscm.Prelude.{
  ℕ, ◌+◌, ◌*◌, ◌/◌, ◌%◌, ◌^◌, ◌≤◌, ◌<◌, ◌≡◌, ap, ◌≢◌, [], ◌∷◌, arith, length, Bytes, nat_order,
  bytes_order,
}
use abacuscm.Wire.{fault, Load, put_word, with_word}

pub word_bytes :
    (n : ℕ)
    → n < 2 ^ 32
    → n % 256
        + 256 * (n / 256 % 256 + 256 * (n / 256 / 256 % 256 + 256 * (n / 256 / 256 / 256 % 256)))
      ≡ n
word_bytes n h = omega arith

-- A word that is stored is read back.
pub with_word-put_word {ℓ} :
    {A : Type ℓ} (n : ℕ) (rest : Bytes) (k : ℕ → Bytes → Load A)
    → n < 2 ^ 32
    → with_word (put_word n rest) k ≡ k n rest
unfolding with_word put_word
with_word-put_word n rest k h = ap (λ m. k m rest) (word_bytes n h)

-- A word within the buffer is read without a fault.
pub with_word_ok {ℓ} :
    {A : Type ℓ} (buf : Bytes) (k : ℕ → Bytes → Load A)
    → 4 ≤ length buf
    → ((w : ℕ) (rest : Bytes) → length rest + 4 ≡ length buf → k w rest ≢ fault)
    → with_word buf k ≢ fault
unfolding with_word
with_word_ok [] k h f e = absurd (omega arith)
with_word_ok (a ∷ []) k h f e = absurd (omega arith)
with_word_ok (a ∷ b ∷ []) k h f e = absurd (omega arith)
with_word_ok (a ∷ b ∷ c ∷ []) k h f e = absurd (omega arith)
with_word_ok (a ∷ b ∷ c ∷ d ∷ rest) k h f e = f _ rest (omega arith) e

pub length-put_word : (n : ℕ) (rest : Bytes) → length (put_word n rest) ≡ 4 + length rest
unfolding put_word
length-put_word n rest = omega arith
