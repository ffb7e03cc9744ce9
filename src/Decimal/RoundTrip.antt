-- ===== src/Decimal/RoundTrip.antt =====
-- What is printed is read back.
use abacuscm.Prelude.{
  ℕ, zero, suc, ◌+◌, ◌/◌, ◌%◌, ◌^◌, ◌<◌, ◌≡◌, sym, ◌∙◌, subst, inl, inr, true, [], ◌∷◌, arith, ltb,
  Bool-cases, All, Bytes, nat_order, bytes_order,
}
use abacuscm.Decimal.{
  is_digit, is_space, emit, to_string, digits_value, skip_space, signed_int, atol_int,
}

emit_fuel : (f g n : ℕ) (out : Bytes) → n < f → n < g → emit f n out ≡ emit g n out
unfolding emit
emit_fuel zero g n out h k = absurd (omega arith)
emit_fuel (suc f) zero n out h k = absurd (omega arith)
emit_fuel (suc f) (suc g) n out h k = ground (arith, emit_fuel f g (n / 10) ((b'0' + n % 10) ∷ out))

digits_value-emit :
    (f n : ℕ) (out : Bytes) → n < f → digits_value 0 (emit f n out) ≡ digits_value n out
unfolding emit digits_value is_digit
digits_value-emit zero n out h = absurd (omega arith)
digits_value-emit (suc f) n out h =
    ground (arith, digits_value-emit f (n / 10) ((b'0' + n % 10) ∷ out))

emit_head :
    (f n : ℕ) (out : Bytes)
    → n < f
    → (d : ℕ) × (rest : Bytes) × (emit f n out ≡ d ∷ rest) × (is_digit d ≡ true)
unfolding emit is_digit
emit_head zero n out h = absurd (omega arith)
emit_head (suc f) n out h = elim (Bool-cases (ltb n 10)) [
  | inl e ↦ (b'0' + n, out, ground arith, ground arith)
  | inr e ↦
      let (d, rest, p, q) = emit_head f (n / 10) ((b'0' + n % 10) ∷ out) (ground arith) in
      (d, rest, rw (e, emit) p, q)
]

emit-digits :
    (f n : ℕ) (out : Bytes)
    → All (λ c. is_digit c ≡ true) out
    → All (λ c. is_digit c ≡ true) (emit f n out)
unfolding emit is_digit
emit-digits zero n out h = h
emit-digits (suc f) n out h = ground (arith, emit-digits f (n / 10) ((b'0' + n % 10) ∷ out))

skip_space-emit : (n : ℕ) → skip_space (to_string n) ≡ to_string n
unfolding skip_space to_string is_digit is_space
skip_space-emit n =
    let (d, rest, p, q) = emit_head (suc n) n [] (omega arith) in rw p (ground arith)

signed_int-digits :
    (d : ℕ) (rest : Bytes)
    → is_digit d ≡ true
    → digits_value 0 (d ∷ rest) < 2 ^ 31
    → signed_int (d ∷ rest) ≡ digits_value 0 (d ∷ rest)
unfolding signed_int is_digit
signed_int-digits d rest q h = ground arith

-- A length that fits an `int` is read back as it was printed.
pub atol_int-to_string : (n : ℕ) → n < 2 ^ 31 → atol_int (to_string n) ≡ n
unfolding atol_int to_string is_digit
atol_int-to_string n h =
    let (d, rest, p, q) = emit_head (suc n) n [] (omega arith) in
    let e = digits_value-emit (suc n) n [] (omega arith) in skipped d rest p q e
  where
    skipped :
        (d : ℕ) (rest : Bytes)
        → to_string n ≡ d ∷ rest
        → is_digit d ≡ true
        → digits_value 0 (to_string n) ≡ n
        → signed_int (skip_space (to_string n)) ≡ n
    skipped d rest p q e =
        subst (λ t. signed_int t ≡ n) (sym (skip_space-emit n))
          (subst (λ t. digits_value 0 t ≡ n → signed_int t ≡ n) (sym p)
            (λ e'. signed_int-digits d rest q (omega arith) ∙ e') e)

pub to_string-digits : (n : ℕ) → All (λ c. is_digit c ≡ true) (to_string n)
unfolding to_string
to_string-digits n = emit-digits (suc n) n [] tt

-- The digits of a number have its value.
pub digits_value-to_string : (n : ℕ) → digits_value 0 (to_string n) ≡ n
unfolding to_string digits_value
digits_value-to_string n = digits_value-emit (suc n) n [] (omega arith)
