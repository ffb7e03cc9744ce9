-- ===== src/Daemon/Occurrences.antt =====
-- How often a message is in the queue and in the table.
use abacuscm.Prelude.{
  ℕ, ◌+◌, ◌≤◌, ◌≡◌, refl, sym, ap, ◌∙◌, inl, inr, Bool, true, false, ◌&&◌, List, [], ◌∷◌, ◌++◌,
  arith, if◌then◌else◌, Bool-cases, nat_order, bytes_order,
}
use abacuscm.Daemon.Peers.{Key, eq_key, Row, has_row, mark_processed, unprocessed, get_messages}

-- 1 where the keys are the same.
abbrev pub hit : Key → Key → ℕ
hit j k = if eq_key j k then 1 else 0

-- How often a key is in a list, in the table, and in the table as not processed.
unfoldable pub occurrences : Key → List Key → ℕ
occurrences k [] = 0
occurrences k (j ∷ keys) = hit j k + occurrences k keys

unfoldable pub total : Key → List Row → ℕ
total k [] = 0
total k ((j, p) ∷ rows) = hit j k + total k rows

unfoldable pub pending : Key → List Row → ℕ
pending k [] = 0
pending k ((j, p) ∷ rows) = (if p then 0 else hit j k) + pending k rows

pub eq_key_refl : (k : Key) → eq_key k k ≡ true
unfolding eq_key
eq_key_refl (a, b) = ground arith

pub eq_key→eq : (j k : Key) → eq_key j k ≡ true → j ≡ k
unfolding eq_key
eq_key→eq (a, b) (c, d) h =
    let p : a ≡ c = ground arith in
    let q : b ≡ d = ground arith in ap (λ x. (x, b)) p ∙ ap (λ y. (c, y)) q

pub occurrences-append :
    (k : Key) (xs ys : List Key) → occurrences k (xs ++ ys) ≡ occurrences k xs + occurrences k ys
unfolding occurrences
occurrences-append k [] ys = omega arith
occurrences-append k (x ∷ xs) ys = omega (arith, occurrences-append k xs ys)

pub occurrences-unprocessed :
    (k : Key) (rows : List Row) → occurrences k (unprocessed rows) ≡ pending k rows
unfolding occurrences unprocessed pending
occurrences-unprocessed k [] = refl
occurrences-unprocessed k ((j, true) ∷ rows) = omega (arith, occurrences-unprocessed k rows)
occurrences-unprocessed k ((j, false) ∷ rows) = omega (arith, occurrences-unprocessed k rows)

pub total-mark_processed :
    (j k : Key) (rows : List Row) → total k (mark_processed j rows) ≡ total k rows
unfolding total mark_processed
total-mark_processed j k [] = refl
total-mark_processed j k ((i, p) ∷ rows) = omega (arith, total-mark_processed j k rows)

pub pending_le : (k : Key) (rows : List Row) → pending k rows ≤ total k rows
unfolding pending total
pending_le k [] = omega arith
pending_le k ((j, true) ∷ rows) = omega (arith, pending_le k rows)
pending_le k ((j, false) ∷ rows) = omega (arith, pending_le k rows)

-- Marking a message leaves the others as they are, and nothing of it is pending.
pub pending-mark_processed :
    (j k : Key) (rows : List Row)
    → pending k (mark_processed j rows) ≡ (if eq_key j k then 0 else pending k rows)
unfolding pending mark_processed
pending-mark_processed j k [] = ground arith
pending-mark_processed j k ((i, p) ∷ rows) = elim (Bool-cases (eq_key i j)) [
  | inl e ↦
      let q : eq_key i k ≡ eq_key j k = ap (λ x. eq_key x k) (eq_key→eq i j e) in
      ground (arith, e, q, pending-mark_processed j k rows)
  | inr e ↦ elim (Bool-cases (eq_key j k)) [
    | inl d ↦
        let q : eq_key i k ≡ eq_key i j = ap (eq_key i) (sym (eq_key→eq j k d)) in
        ground (arith, e, d, q, pending-mark_processed j k rows)
    | inr d ↦ ground (arith, e, d, pending-mark_processed j k rows)
  ]
]

pub total-has_row : (k : Key) (rows : List Row) → has_row k rows ≡ false → total k rows ≡ 0
unfolding total has_row
total-has_row k [] h = refl
total-has_row k ((j, p) ∷ rows) h = ground (arith, total-has_row k rows)

-- `getMessages` returns the rows that are fetched and can be built.
pub occurrences-get_messages :
    (fetched builds : Key → Bool) (k : Key) (keys : List Key)
    → (occurrences k (get_messages fetched builds keys).0
        ≡ (if fetched k && builds k then occurrences k keys else 0))
      × (occurrences k (get_messages fetched builds keys).1
          ≡ (if fetched k && builds k then 0 else occurrences k keys))
unfolding occurrences get_messages
occurrences-get_messages fetched builds k [] = (ground arith, ground arith)
occurrences-get_messages fetched builds k (j ∷ keys) =
    let (p, q) = occurrences-get_messages fetched builds k keys in
    elim (Bool-cases (eq_key j k)) [
      | inl e ↦
          let f : fetched j ≡ fetched k = ap fetched (eq_key→eq j k e) in
          let b : builds j ≡ builds k = ap builds (eq_key→eq j k e) in
          (ground (arith, e, f, b, p), ground (arith, e, f, b, q))
      | inr e ↦ (ground (arith, e, p), ground (arith, e, q))
    ]
