-- ===== src/Prelude/Text.antt =====
-- Byte strings: a C++ `std::string` is a list of byte values.
use Prim.Native.Nat.{ℕ}
use Prim.Native.Char.{code}
use Prim.Native.String.{String}
use mathlib.Core.Path.{◌≡◌, refl}
use mathlib.Core.Logic.{◌≢◌, ◌↔◌}
use mathlib.Core.Bool.{Bool, true, false, ◌&&◌, ◌||◌}
use mathlib.Core.List.{List, [], ◌∷◌}
use native.Mathlib.Omega.{arith}
use abacuscm.Prelude.Tests.{ltb, ◌==◌}
use abacuscm.Prelude.Lists.{All}

abbrev pub Bytes : Type 0
Bytes = List ℕ

-- The bytes of a text literal.
abbrev pub codes : String → Bytes
codes String.[] = []
codes (String.◌∷◌ c s) = code c ∷ codes s

-- `operator==` of `std::string`.
unfoldable pub eq_bytes : Bytes → Bytes → Bool
eq_bytes [] [] = true
eq_bytes [] (y ∷ ys) = false
eq_bytes (x ∷ xs) [] = false
eq_bytes (x ∷ xs) (y ∷ ys) = (x == y) && eq_bytes xs ys

-- `operator<` of `std::string`: lexicographic, on bytes.
unfoldable pub lt_bytes : Bytes → Bytes → Bool
lt_bytes xs [] = false
lt_bytes [] (y ∷ ys) = true
lt_bytes (x ∷ xs) (y ∷ ys) = ltb x y || ((x == y) && lt_bytes xs ys)

-- No byte of the text is `b`.
abbrev pub Lacks : ℕ → Bytes → Type 0
Lacks b = All (λ c. c ≢ b)

pub eq_bytes_refl : (xs : Bytes) → eq_bytes xs xs ≡ true
unfolding eq_bytes
eq_bytes_refl [] = refl
eq_bytes_refl (x ∷ xs) = ground (arith, eq_bytes_refl xs)

pub eq_bytes→eq : (xs ys : Bytes) → eq_bytes xs ys ≡ true → xs ≡ ys
unfolding eq_bytes
eq_bytes→eq [] [] h = refl
eq_bytes→eq [] (y ∷ ys) h = cc
eq_bytes→eq (x ∷ xs) [] h = cc
eq_bytes→eq (x ∷ xs) (y ∷ ys) h = ground (arith, eq_bytes→eq xs ys)

pub eq_bytes_iff : (xs ys : Bytes) → (eq_bytes xs ys ≡ true) ↔ (xs ≡ ys)
eq_bytes_iff xs ys = (eq_bytes→eq xs ys, λ e. ground (arith, eq_bytes_refl xs))

pub lt_bytes-asymm : (xs ys : Bytes) → lt_bytes xs ys ≡ true → lt_bytes ys xs ≡ false
unfolding lt_bytes
lt_bytes-asymm [] [] h = refl
lt_bytes-asymm [] (y ∷ ys) h = refl
lt_bytes-asymm (x ∷ xs) [] h = cc
lt_bytes-asymm (x ∷ xs) (y ∷ ys) h = ground (arith, lt_bytes-asymm xs ys)

pub lt_bytes_irrefl : (xs : Bytes) → lt_bytes xs xs ≡ false
unfolding lt_bytes
lt_bytes_irrefl [] = refl
lt_bytes_irrefl (x ∷ xs) = ground (arith, lt_bytes_irrefl xs)

pub lt_bytes_trans :
    (xs ys zs : Bytes) → lt_bytes xs ys ≡ true → lt_bytes ys zs ≡ true → lt_bytes xs zs ≡ true
unfolding lt_bytes
lt_bytes_trans xs ys [] h k = cc
lt_bytes_trans xs [] (z ∷ zs) h k = cc
lt_bytes_trans [] (y ∷ ys) (z ∷ zs) h k = refl
lt_bytes_trans (x ∷ xs) (y ∷ ys) (z ∷ zs) h k = ground (arith, lt_bytes_trans xs ys zs)

-- Two texts neither of which is less are equal.
pub lt_bytes-connex : (xs ys : Bytes) → lt_bytes xs ys ≡ false → lt_bytes ys xs ≡ false → xs ≡ ys
unfolding lt_bytes
lt_bytes-connex [] [] h k = refl
lt_bytes-connex [] (y ∷ ys) h k = cc
lt_bytes-connex (x ∷ xs) [] h k = cc
lt_bytes-connex (x ∷ xs) (y ∷ ys) h k = ground (arith, lt_bytes-connex xs ys)
