-- ===== src/MessageBlock/Counts.antt =====
-- What `addBytes` reports: it fails for good, and it never takes more bytes than it was given.
use abacuscm.Prelude.{
  ℕ, zero, suc, ◌+◌, ◌≤◌, ◌≡◌, refl, ◌≢◌, inl, inr, [], ◌∷◌, ◌++◌, arith, ◌==◌, Bool-cases, length,
  Bytes, nat_order, bytes_order,
}
use abacuscm.MessageBlock.{
  add_bytes, failed, collect, MessageBlock, ret, bytes_of, Outcome, advance, new, line_step,
  unbuffer, add_lines,
}
use abacuscm.MessageBlock.Lines.{IsReading, LineStep-cases, buffer-add_bytes, add_bytes-body}
use abacuscm.MessageBlock.Chunks.{IsOpen}

collect-ne-failed :
    (mb : MessageBlock) (pos k : ℕ) (a : Bytes) → advance k (collect mb pos a).0 ≢ failed
unfolding collect advance
collect-ne-failed mb pos k a e = ground arith

collect_ok : (mb : MessageBlock) (pos : ℕ) (a : Bytes) → (collect mb pos a).0 ≢ failed
unfolding collect
collect_ok mb pos a e = ground arith

add_lines_failed :
    (mb : MessageBlock) (seen a b : Bytes) (n : ℕ)
    → (add_lines mb seen a n).0 ≡ failed
    → add_lines mb seen (a ++ b) n ≡ add_lines mb seen a n
unfolding add_lines
add_lines_failed mb seen [] b n e = absurd (ground arith)
add_lines_failed mb seen (c ∷ cs) b n e = elim (Bool-cases (c == 10)) [
  | inr p ↦
      rw (p, add_lines)
        (add_lines_failed mb (seen ++ (c ∷ [])) cs b (n + 1) (rw (p, add_lines) at e))
  | inl p ↦ elim (LineStep-cases (line_step (unbuffer mb) (bytes_of mb.content ++ seen))) [
    | inl (mb', q) ↦
        rw (p, add_lines, q) (add_lines_failed mb' [] cs b (n + 1) (rw (p, add_lines, q) at e))
    | inr (inl (mb', q)) ↦ rw (p, add_lines, q)
    | inr (inr (inl (mb', q))) ↦ rw (p, add_lines, q)
    | inr (inr (inr (mb', q))) ↦
        absurd (collect-ne-failed mb' 0 (n + 1) cs (rw (p, add_lines, q) at e))
  ]
]

-- A block that was refused stays refused, whatever follows.
pub add_bytes_failed :
    (mb : MessageBlock) (a b : Bytes)
    → IsOpen mb
    → (add_bytes mb a).0 ≡ failed
    → add_bytes mb (a ++ b) ≡ add_bytes mb a
add_bytes_failed mb a b (inl h) e =
    rw (buffer-add_bytes mb (a ++ b) h, buffer-add_bytes mb a h)
      (add_lines_failed mb [] a b 0 (rw (buffer-add_bytes mb a h) at e))
add_bytes_failed mb a b (inr (pos, p, h)) e =
    absurd (collect_ok mb pos a (rw (add_bytes-body mb pos a p) at e))

collect-le :
    (mb : MessageBlock) (pos k : ℕ) (a : Bytes) → (collect mb pos a).0 ≡ ret k → k ≤ length a
unfolding collect
collect-le mb pos k a e = ground arith

advance-le :
    (n k m : ℕ) (o : Outcome)
    → advance n o ≡ ret (suc k)
    → ((j : ℕ) → o ≡ ret j → j ≤ m)
    → suc k ≤ n + m
unfolding advance
advance-le n k m failed e h = cc
advance-le n k m (ret zero) e h = absurd (ground arith)
advance-le n k m (ret (suc j)) e h = ground (arith, h (suc j) refl)

add_lines-le :
    (mb : MessageBlock) (seen a : Bytes) (n k : ℕ)
    → (add_lines mb seen a n).0 ≡ ret (suc k)
    → suc k ≤ n + length a
unfolding add_lines
add_lines-le mb seen [] n k e = absurd (ground arith)
add_lines-le mb seen (c ∷ cs) n k e = elim (Bool-cases (c == 10)) [
  | inr p ↦ omega (arith, add_lines-le mb (seen ++ (c ∷ [])) cs (n + 1) k (rw (p, add_lines) at e))
  | inl p ↦ elim (LineStep-cases (line_step (unbuffer mb) (bytes_of mb.content ++ seen))) [
    | inl (mb', q) ↦ omega (arith, add_lines-le mb' [] cs (n + 1) k (rw (p, add_lines, q) at e))
    | inr (inl (mb', q)) ↦ let e' : failed ≡ ret (suc k) = rw (p, add_lines, q) at e in cc
    | inr (inr (inl (mb', q))) ↦
        let e' : ret (n + 1) ≡ ret (suc k) = rw (p, add_lines, q) at e in ground arith
    | inr (inr (inr (mb', q))) ↦ omega (
      arith,
      advance-le (n + 1) k (length cs) _ (rw (p, add_lines, q) at e) (λ j. collect-le mb' 0 j cs),
    )
  ]
]

-- The bytes that a completed block has used are bytes of the call.
pub add_bytes-le :
    (mb : MessageBlock) (k : ℕ) (a : Bytes)
    → IsOpen mb
    → (add_bytes mb a).0 ≡ ret (suc k)
    → suc k ≤ length a
add_bytes-le mb k a (inl h) e =
    omega (arith, add_lines-le mb [] a 0 k (rw (buffer-add_bytes mb a h) at e))
add_bytes-le mb k a (inr (pos, p, h)) e =
    collect-le mb pos (suc k) a (rw (add_bytes-body mb pos a p) at e)

pub new-IsReading : (message : Bytes) → IsReading (new message)
unfolding new
new-IsReading message = record { no_pos = refl; no_length = λ _. refl }
