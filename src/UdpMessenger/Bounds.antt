-- ===== src/UdpMessenger/Bounds.antt =====
-- The sizes of the fragments, and the parts that the fragments of a message are.
use abacuscm.Prelude.{
  ℕ, zero, suc, ◌+◌, ◌-◌, ◌*◌, ◌/◌, ◌%◌, ◌^◌, ◌≤◌, ◌<◌, ◌≡◌, refl, sym, ap, ◌∙◌, subst, ◌≢◌, inl,
  inr, ◌++◌, append-nil, append_assoc, arith, leb, ◌==◌, leb→le, Bool-cases, length, drop,
  length-take, length-drop, Bytes, nat_order, bytes_order,
}
use native.Mathlib.Omega.{div_any}
use native.Mathlib.Nat.{mod-lt, mul-le-mul_left, le-mul_of_pos_right}
use abacuscm.UdpMessenger.{num_fragments, fragment_start, fragment_length, fragment, assembled}
use abacuscm.UdpMessenger.Tiling.{fragment_start-suc, fragment_start_end, assembled-all}
use abacuscm.UdpMessenger.Collections.{span}

-- The number of fragments of a message that is neither empty nor too long.
pub record IsCount (most len n : ℕ) : Type 0 where
  pub positive : 1 ≤ n
  pub le_len : n ≤ len
  pub room : len ≤ most * n

count_le : (most len n r : ℕ) → most * n + r ≡ len + most - 1 → 1 ≤ len → 1 ≤ most → n ≤ len
count_le most len n r h a b = elim (Bool-cases (leb n len)) [
  | inl q ↦ leb→le n len q
  | inr q ↦
      let t : most * suc len ≤ most * n = mul-le-mul_left most (ground arith) in
      let e : most * suc len ≡ len * most + most = omega arith in
      let l : len ≤ len * most = le-mul_of_pos_right len (omega arith) in
      absurd (omega (arith, t, e, l, h))
]

pub num_fragments-IsCount :
    (most len : ℕ)
    → 1 ≤ len
    → 1 ≤ most
    → (len + most - 1) / most < 2 ^ 16
    → IsCount most len (num_fragments most len)
unfolding num_fragments
num_fragments-IsCount most len a b c =
    let d : most * ((len + most - 1) / most) + (len + most - 1) % most ≡ len + most - 1 =
      div_any (len + most - 1) most in
    let l : (len + most - 1) % most < most = mod-lt (len + most - 1) (omega arith) in
    let e : (len + most - 1) / most % 2 ^ 16 ≡ (len + most - 1) / most = omega arith in
    let r : len ≤ most * ((len + most - 1) / most) = omega (arith, d, l) in
    subst (IsCount most len) (sym e) (record {
      positive = grind (arith, r, a);
      le_len = count_le most len ((len + most - 1) / most) ((len + most - 1) % most) d a b;
      room = r;
    })

-- The length of a fragment that `sendMessage` makes.
pub record IsPart (most len n i : ℕ) : Type 0 where
  pub positive : 1 ≤ fragment_length (len / n) (len % n) i
  pub small : fragment_length (len / n) (len % n) i ≤ most
  pub inside : fragment_start (len / n) (len % n) i + fragment_length (len / n) (len % n) i ≤ len

fragment_start_mono :
    (base large i k : ℕ) → fragment_start base large i ≤ fragment_start base large (i + k)
fragment_start_mono base large i zero =
    let e : i + 0 ≡ i = omega arith in
    subst (λ j. fragment_start base large i ≤ fragment_start base large j) (sym e) (omega arith)
fragment_start_mono base large i (suc k) =
    let e : i + suc k ≡ suc (i + k) = omega arith in
    let q : fragment_start base large (suc (i + k))
        ≡ fragment_start base large (i + k) + fragment_length base large (i + k) =
      fragment_start-suc base large (i + k) in
    subst (λ j. fragment_start base large i ≤ fragment_start base large j) (sym e)
      (omega (arith, q, fragment_start_mono base large i k))

base_pos : (len n : ℕ) → 1 ≤ n → n ≤ len → 1 ≤ len / n
base_pos len n a b =
    let d : n * (len / n) + len % n ≡ len = div_any len n in
    let l : len % n < n = mod-lt len (omega arith) in
    elim (Bool-cases (len / n == 0)) [
      | inl e ↦
          let z : len / n ≡ 0 = ground arith in
          let t : n * (len / n) ≡ n * 0 = ap (◌*◌ n) z in absurd (omega (arith, d, l, t))
      | inr e ↦ ground arith
    ]

length_le :
    (most len n i : ℕ) → 1 ≤ n → len ≤ most * n → fragment_length (len / n) (len % n) i ≤ most
unfolding fragment_length
length_le most len n i a h =
    let d : n * (len / n) + len % n ≡ len = div_any len n in
    let c : most * n ≡ n * most = omega arith in
    elim (Bool-cases (leb (len / n + 1) most)) [
      | inl q ↦ ground arith
      | inr q ↦ elim (Bool-cases (leb (len / n) most)) [
        | inl e ↦
            let z : len / n ≡ most = ground arith in
            let t : n * (len / n) ≡ n * most = ap (◌*◌ n) z in
            let y : len % n ≡ 0 = omega (arith, d, t, c, h) in rw y (rw z (ground arith))
        | inr e ↦
            let t : n * suc most ≤ n * (len / n) = mul-le-mul_left n (ground arith) in
            let y : n * suc most ≡ n * most + n = omega arith in
            absurd (omega (arith, d, t, c, h, y))
      ]
    ]

pub IsCount-IsPart : (most len n i : ℕ) → IsCount most len n → i < n → IsPart most len n i
unfolding fragment_length
IsCount-IsPart most len n i c h = record {
  positive = ground (arith, base_pos len n c.positive c.le_len);
  small = length_le most len n i c.positive c.room;
  inside =
      let base : ℕ = len / n in
      let large : ℕ = len % n in
      let q : fragment_start base large (suc i)
          ≡ fragment_start base large i + fragment_length base large i =
        fragment_start-suc base large i in
      let e : suc i + (n - suc i) ≡ n = omega arith in
      let m : fragment_start base large (suc i) ≤ fragment_start base large n =
        subst (λ j. fragment_start base large (suc i) ≤ fragment_start base large j) e
          (fragment_start_mono base large (suc i) (n - suc i)) in
      let z : fragment_start base large n ≡ len =
        fragment_start_end len n (λ p. omega (arith, c.positive)) in
      omega (arith, q, m, z);
}

pub length-fragment :
    (base large i : ℕ) (blob : Bytes)
    → fragment_start base large i + fragment_length base large i ≤ length blob
    → length (fragment base large blob i) ≡ fragment_length base large i
unfolding fragment
length-fragment base large i blob h =
    let d : length (drop (fragment_start base large i) blob) + fragment_start base large i
        ≡ length blob =
      length-drop (fragment_start base large i) blob (omega arith) in
    length-take (fragment_length base large i) (drop (fragment_start base large i) blob)
      (omega (arith, d))

span-snoc : (part : ℕ → Bytes) (lo k : ℕ) → span part lo (suc k) ≡ span part lo k ++ part (lo + k)
unfolding span
span-snoc part lo zero = let e : lo + 0 ≡ lo = omega arith in append-nil (part lo) ∙ ap part (sym e)
span-snoc part lo (suc k) =
    let e : suc lo + k ≡ lo + suc k = omega arith in
    ap (λ r. part lo ++ r) (span-snoc part (suc lo) k)
    ∙ sym (append_assoc (part lo) (span part (suc lo) k) (part (suc lo + k)))
    ∙ ap (λ j. (part lo ++ span part (suc lo) k) ++ part j) e

span-assembled :
    (base large : ℕ) (blob : Bytes) (n : ℕ)
    → span (λ i. fragment base large blob (i - 1)) 1 n ≡ assembled base large blob n
unfolding span assembled
span-assembled base large blob zero = refl
span-assembled base large blob (suc n) =
    let e : 1 + n - 1 ≡ n = omega arith in
    span-snoc (λ i. fragment base large blob (i - 1)) 1 n
    ∙ ap (λ r. r ++ fragment base large blob (1 + n - 1)) (span-assembled base large blob n)
    ∙ ap (λ j. assembled base large blob n ++ fragment base large blob j) e

-- The parts of a message, put together in the order of their numbers, are its blob.
pub span-fragment :
    (blob : Bytes) (n : ℕ)
    → n ≢ 0
    → span (λ i. fragment (length blob / n) (length blob % n) blob (i - 1)) 1 n ≡ blob
span-fragment blob n h =
    span-assembled (length blob / n) (length blob % n) blob n ∙ assembled-all blob n h
