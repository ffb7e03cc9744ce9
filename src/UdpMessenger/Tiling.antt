-- ===== src/UdpMessenger/Tiling.antt =====
-- The fragments are the message, each byte once.
use abacuscm.Prelude.{
  ℕ, zero, suc, ◌+◌, ◌*◌, ◌/◌, ◌%◌, ◌<◌, ◌≡◌, refl, sym, ap, ◌∙◌, ◌≢◌, [], ◌∷◌, ◌++◌, arith, length,
  take, drop, take-length, Bytes, nat_order, bytes_order,
}
use native.Mathlib.Omega.{div_any}
use native.Mathlib.Nat.{mod-lt}
use abacuscm.UdpMessenger.{fragment_start, fragment_length, fragment, assembled}

take_nil : (n : ℕ) → take {A = ℕ} n [] ≡ []
take_nil zero = refl
take_nil (suc n) = refl

take-plus : (a b : ℕ) (xs : Bytes) → take (a + b) xs ≡ take a xs ++ take b (drop a xs)
take-plus zero b xs = ap (λ n. take n xs) (omega arith)
take-plus (suc a) b [] =
    let e : suc a + b ≡ suc (a + b) = omega arith in ap (λ n. take n []) e ∙ sym (take_nil b)
take-plus (suc a) b (x ∷ xs) =
    let e : suc a + b ≡ suc (a + b) = omega arith in
    ap (λ n. take n (x ∷ xs)) e ∙ ap (◌∷◌ x) (take-plus a b xs)

pub fragment_start-suc :
    (base large i : ℕ)
    → fragment_start base large (suc i) ≡ fragment_start base large i + fragment_length base large i
unfolding fragment_start fragment_length
fragment_start-suc base large i = grind arith

fragment_start_zero : (base large : ℕ) → fragment_start base large 0 ≡ 0
unfolding fragment_start
fragment_start_zero base large = grind arith

pub fragment_start_end : (len n : ℕ) → n ≢ 0 → fragment_start (len / n) (len % n) n ≡ len
unfolding fragment_start
fragment_start_end len n h =
    let d : n * (len / n) + len % n ≡ len = div_any len n in
    let l : len % n < n = mod-lt len (omega arith) in grind (arith, d, l)

assembled-take :
    (base large : ℕ) (xs : Bytes) (n : ℕ)
    → assembled base large xs n ≡ take (fragment_start base large n) xs
unfolding assembled fragment
assembled-take base large xs zero =
    let e : fragment_start base large 0 ≡ 0 = fragment_start_zero base large in
    ap (λ k. take k xs) (sym e)
assembled-take base large xs (suc n) =
    ap (λ l. l ++ fragment base large xs n) (assembled-take base large xs n)
    ∙ sym (take-plus (fragment_start base large n) (fragment_length base large n) xs)
    ∙ ap (λ k. take k xs) (sym (fragment_start-suc base large n))

-- Cut into `n` fragments as `sendMessage` does it, with `length / n` bytes and one more in the first
-- `length % n`, a message is its fragments in the order of their numbers.
pub assembled-all :
    (xs : Bytes) (n : ℕ) → n ≢ 0 → assembled (length xs / n) (length xs % n) xs n ≡ xs
assembled-all xs n h =
    assembled-take (length xs / n) (length xs % n) xs n
    ∙ ap (λ k. take k xs) (fragment_start_end (length xs) n h)
    ∙ take-length xs
