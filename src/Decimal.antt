-- ===== src/Decimal.antt =====
-- Decimal numbers as the program prints and reads them: `sprintf("%d")` and `to_string`
-- (include/misc.h), `atol` of the C library.
pub mod RoundTrip
use abacuscm.Prelude.{
  ℕ, zero, suc, ◌+◌, ◌-◌, ◌*◌, ◌/◌, ◌%◌, ◌^◌, ◌≤◌, ◌<◌, String, ◌≡◌, refl, sym, ap, ◌∙◌, subst, ◌≢◌,
  ◌↔◌, ◌⊎◌, inl, inr, Bool, true, false, not, ◌&&◌, ◌||◌, Option, none, some, List, [], ◌∷◌, ◌++◌,
  map, append-nil, append_assoc, arith, ltb, leb, ◌==◌, if◌then◌else◌, ltb→lt, lt→ltb, leb→le,
  ==_iff, ==_refl, ==_ne, Bool-cases, Option-cases, ◌>>=◌, length, take, drop, length-append,
  take-length_append, take-length, take-append_ge, take-append_le, drop-length_append,
  take-append_drop, length-take, length-drop, All, All-append, list-cases, Bytes, codes, eq_bytes,
  lt_bytes, Lacks, eq_bytes_refl, eq_bytes→eq, eq_bytes_iff, lt_bytes-asymm, lt_bytes_irrefl,
  lt_bytes_trans, lt_bytes-connex, StrictOrder, nat_order, bytes_order, same, find, put, erase,
  same_refl, same→eq, find-put, find-erase, Below, IsSorted, All-put, put-Below, put-IsSorted,
  erase-IsSorted,
}

unfoldable pub is_digit : ℕ → Bool
is_digit c = leb b'0' c && leb c b'9'

-- The white space that `strtol` skips.
unfoldable pub is_space : ℕ → Bool
is_space c = c == 32 || (leb 9 c && leb c 13)

-- The digits of `n` in front of `out`; each round divides by ten.
unfoldable pub emit : ℕ → ℕ → Bytes → Bytes
emit zero n out = out
emit (suc fuel) n out = elim (ltb n 10) [
  | true ↦ (b'0' + n) ∷ out
  | false ↦ emit fuel (n / 10) ((b'0' + n % 10) ∷ out)
]

-- `n` has fewer than `n + 1` digits, so the fuel suffices (`emit_fuel`).
unfoldable pub to_string : ℕ → Bytes
unfolding emit
to_string n = emit (suc n) n []

-- The number that the leading digits of a text make up.
unfoldable pub digits_value : ℕ → Bytes → ℕ
digits_value acc [] = acc
digits_value acc (c ∷ cs) = if is_digit c then digits_value (acc * 10 + (c - b'0')) cs else acc

unfoldable pub skip_space : Bytes → Bytes
skip_space [] = []
skip_space (c ∷ cs) = if is_space c then skip_space cs else c ∷ cs

abbrev pub min_ℕ : ℕ → ℕ → ℕ
min_ℕ a b = if leb a b then a else b

-- A sign and digits as a 32-bit pattern: the `long` that `strtol` gives, which is clamped to the
-- range of `long`, truncated to an `int`.
unfoldable pub signed_int : Bytes → ℕ
signed_int [] = 0
signed_int (c ∷ cs) =
    if c == b'-'
    then (2 ^ 32 - min_ℕ (digits_value 0 cs) (2 ^ 63) % 2 ^ 32) % 2 ^ 32
    else if c == b'+'
    then min_ℕ (digits_value 0 cs) (2 ^ 63 - 1) % 2 ^ 32
    else min_ℕ (digits_value 0 (c ∷ cs)) (2 ^ 63 - 1) % 2 ^ 32

-- `int x = atol(s)`.
unfoldable pub atol_int : Bytes → ℕ
unfolding skip_space digits_value is_digit is_space signed_int
atol_int s = signed_int (skip_space s)

-- `x > 0` for an `int` given by its pattern.
abbrev pub is_positive : ℕ → Bool
is_positive x = ltb 0 x && ltb x (2 ^ 31)

to_string_zero : to_string 0 ≡ codes "0"
unfolding to_string
to_string_zero = refl

to_string_large : to_string 4294967295 ≡ codes "4294967295"
unfolding to_string
to_string_large = refl

atol_int_blank : atol_int (codes " 120x") ≡ 120
unfolding atol_int
atol_int_blank = refl

atol_int_negative : atol_int (codes "-1") ≡ 4294967295
unfolding atol_int
atol_int_negative = refl

-- All are digits, and there is one.
unfoldable pub all_digits : Bytes → Bool
all_digits [] = true
all_digits (c ∷ cs) = is_digit c && all_digits cs

unfoldable pub is_number : Bytes → Bool
is_number [] = false
is_number (c ∷ cs) = all_digits (c ∷ cs)

-- `from_string` behind the white space, for a type whose values are 0 to `most`: a sign and digits up
-- to the end of the text.
unfoldable pub from_unspaced : ℕ → Bytes → Option ℕ
from_unspaced most [] = none
from_unspaced most (c ∷ cs) =
    if c == b'-'
    then (if is_number cs && (digits_value 0 cs == 0) then some 0 else none)
    else let digits : Bytes = if c == b'+' then cs else c ∷ cs in
      if is_number digits && leb (digits_value 0 digits) most
      then some (digits_value 0 digits)
      else none

-- `from_string<T>` for an unsigned type `T` of at most 63 bits with the greatest value `most`.
unfoldable pub from_string : ℕ → Bytes → Option ℕ
from_string most s = from_unspaced most (skip_space s)

-- `from_string` for a signed type whose greatest value is `most`: the sign and the magnitude.
unfoldable pub signed_unspaced : ℕ → Bytes → Option (Bool × ℕ)
signed_unspaced most [] = none
signed_unspaced most (c ∷ cs) =
    if c == b'-'
    then (if is_number cs && leb (digits_value 0 cs) (most + 1)
        then some (true, digits_value 0 cs)
        else none)
    else let digits : Bytes = if c == b'+' then cs else c ∷ cs in
      if is_number digits && leb (digits_value 0 digits) most
      then some (false, digits_value 0 digits)
      else none

unfoldable pub from_string_signed : ℕ → Bytes → Option (Bool × ℕ)
from_string_signed most s = signed_unspaced most (skip_space s)

-- The 32 low bits of a signed number.
unfoldable pub low_word : Bool × ℕ → ℕ
low_word (true, n) = (2 ^ 32 - n % 2 ^ 32) % 2 ^ 32
low_word (false, n) = n % 2 ^ 32
