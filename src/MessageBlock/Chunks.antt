-- ===== src/MessageBlock/Chunks.antt =====
-- `addBytes` does not depend on how the bytes of a block are cut into calls.
use abacuscm.Prelude.{
  ℕ, suc, ◌+◌, ◌<◌, ◌≡◌, ap, ◌∙◌, ◌⊎◌, inl, inr, some, [], ◌∷◌, ◌++◌, append-nil, arith, ◌==◌,
  Bool-cases, length, Bytes, nat_order, bytes_order,
}
use native.Mathlib.Nat.{add-zero, zero-add}
use abacuscm.MessageBlock.{
  add_bytes, failed, collect, MessageBlock, ret, bytes_of, buffer, line_step, unbuffer, add_lines,
}
use abacuscm.MessageBlock.Lines.{
  IsReading, IsFresh-IsReading, unbuffer-IsFresh, buffer-IsReading, line_step-IsFresh,
  line_step-body, LineStep-cases, resume, shift, advance-eq-suc, suc_shift, collect-append,
  collect_extra, buffer-add_bytes, add_bytes-body, collect-pos, resumed, advance-eq-zero,
  body-append, collect_missing,
}

add_lines-append :
    (mb : MessageBlock) (seen a b : Bytes) (n : ℕ)
    → IsReading mb
    → (add_lines mb seen a n).0 ≡ ret 0
    → add_lines mb seen (a ++ b) n ≡ resumed (n + length a) (add_bytes (add_lines mb seen a n).1 b)
unfolding add_lines
add_lines-append mb seen [] b n h e = rw (
  buffer-add_bytes (buffer mb seen) b (buffer-IsReading mb seen h),
  resume mb seen [] b 0 h,
  append-nil,
  ← shift mb seen b (n + 0) 0,
  add-zero n,
  add-zero n,
)
add_lines-append mb seen (c ∷ cs) b n h e = elim (Bool-cases (c == 10)) [
  | inr p ↦
      rw (p, add_lines, suc_shift n (length cs))
        (add_lines-append mb (seen ++ (c ∷ [])) cs b (n + 1) h (rw (p, add_lines) at e))
  | inl p ↦ elim (LineStep-cases (line_step (unbuffer mb) (bytes_of mb.content ++ seen))) [
    | inl (mb', q) ↦
        rw (p, add_lines, q, suc_shift n (length cs))
          (add_lines-append mb' [] cs b (n + 1)
            (IsFresh-IsReading (line_step-IsFresh _ mb' _ (unbuffer-IsFresh mb h) q))
            (rw (p, add_lines, q) at e))
    | inr (inl (mb', q)) ↦ let e' : failed ≡ ret 0 = rw (p, add_lines, q) at e in cc
    | inr (inr (inl (mb', q))) ↦
        let e' : ret (n + 1) ≡ ret 0 = rw (p, add_lines, q) at e in absurd (ground arith)
    | inr (inr (inr (mb', q))) ↦
        rw (p, add_lines, q)
          (body-append mb' n cs b (line_step-body _ mb' _ q)
            (advance-eq-zero n n _ (rw (p, add_lines, q) at e)))
  ]
]

-- A call that completes the block leaves what lies behind the block alone.
add_lines_extra :
    (mb : MessageBlock) (seen a b : Bytes) (n k : ℕ)
    → (add_lines mb seen a n).0 ≡ ret (suc k)
    → add_lines mb seen (a ++ b) n ≡ add_lines mb seen a n
unfolding add_lines
add_lines_extra mb seen [] b n k e = absurd (ground arith)
add_lines_extra mb seen (c ∷ cs) b n k e = elim (Bool-cases (c == 10)) [
  | inr p ↦
      rw (p, add_lines)
        (add_lines_extra mb (seen ++ (c ∷ [])) cs b (n + 1) k (rw (p, add_lines) at e))
  | inl p ↦ elim (LineStep-cases (line_step (unbuffer mb) (bytes_of mb.content ++ seen))) [
    | inl (mb', q) ↦
        rw (p, add_lines, q) (add_lines_extra mb' [] cs b (n + 1) k (rw (p, add_lines, q) at e))
    | inr (inl (mb', q)) ↦ rw (p, add_lines, q)
    | inr (inr (inl (mb', q))) ↦ rw (p, add_lines, q)
    | inr (inr (inr (mb', q))) ↦
        let (m, z) = advance-eq-suc (n + 1) k _ (rw (p, add_lines, q) at e) in
        rw (p, add_lines, q) (ap (resumed (n + 1)) (collect_extra mb' 0 m cs b z))
  ]
]

-- Between two calls a block reads lines, or content of which some bytes are missing.
abbrev pub IsOpen : MessageBlock → Type 0
IsOpen mb = IsReading mb ⊎ ((pos : ℕ) × (mb.content_pos ≡ some pos) × (pos < mb.content_length))

-- A call of `addBytes` that wants more bytes, followed by a call with `b`, gives the block and the
-- result of one call with all the bytes, the passed bytes added to the count.
pub add_bytes-append :
    (mb : MessageBlock) (a b : Bytes)
    → IsOpen mb
    → (add_bytes mb a).0 ≡ ret 0
    → add_bytes mb (a ++ b) ≡ resumed (length a) (add_bytes (add_bytes mb a).1 b)
add_bytes-append mb a b (inl h) e =
    rw (buffer-add_bytes mb (a ++ b) h, buffer-add_bytes mb a h)
      (add_lines-append mb [] a b 0 h (rw (buffer-add_bytes mb a h) at e)
        ∙ ap (λ n. resumed n (add_bytes (add_lines mb [] a 0).1 b)) (zero-add (length a)))
add_bytes-append mb a b (inr (pos, p, h)) e =
    let e' = rw (add_bytes-body mb pos a p) at e in
    rw
      (
        add_bytes-body mb pos (a ++ b) p,
        add_bytes-body mb pos a p,
        add_bytes-body (collect mb pos a).1 (pos + length a) b (collect-pos mb pos a h e'),
      )
      (collect-append mb pos a b h e')

-- A call that completes the block takes no notice of the bytes behind the block.
pub add_bytes_extra :
    (mb : MessageBlock) (k : ℕ) (a b : Bytes)
    → IsOpen mb
    → (add_bytes mb a).0 ≡ ret (suc k)
    → add_bytes mb (a ++ b) ≡ add_bytes mb a
add_bytes_extra mb k a b (inl h) e =
    rw (buffer-add_bytes mb (a ++ b) h, buffer-add_bytes mb a h)
      (add_lines_extra mb [] a b 0 k (rw (buffer-add_bytes mb a h) at e))
add_bytes_extra mb k a b (inr (pos, p, h)) e =
    rw (add_bytes-body mb pos (a ++ b) p, add_bytes-body mb pos a p)
      (collect_extra mb pos k a b (rw (add_bytes-body mb pos a p) at e))

collect-IsOpen :
    (mb : MessageBlock) (pos : ℕ) (a : Bytes)
    → pos < mb.content_length
    → (collect mb pos a).0 ≡ ret 0
    → IsOpen (collect mb pos a).1
collect-IsOpen mb pos a h e =
    inr (pos + length a, collect-pos mb pos a h e, collect_missing mb pos a h e)

add_lines-IsOpen :
    (mb : MessageBlock) (seen a : Bytes) (n : ℕ)
    → IsReading mb
    → (add_lines mb seen a n).0 ≡ ret 0
    → IsOpen (add_lines mb seen a n).1
unfolding add_lines
add_lines-IsOpen mb seen [] n h e = inl (buffer-IsReading mb seen h)
add_lines-IsOpen mb seen (c ∷ cs) n h e = elim (Bool-cases (c == 10)) [
  | inr p ↦
      rw (p, add_lines)
        (add_lines-IsOpen mb (seen ++ (c ∷ [])) cs (n + 1) h (rw (p, add_lines) at e))
  | inl p ↦ elim (LineStep-cases (line_step (unbuffer mb) (bytes_of mb.content ++ seen))) [
    | inl (mb', q) ↦
        rw (p, add_lines, q)
          (add_lines-IsOpen mb' [] cs (n + 1)
            (IsFresh-IsReading (line_step-IsFresh _ mb' _ (unbuffer-IsFresh mb h) q))
            (rw (p, add_lines, q) at e))
    | inr (inl (mb', q)) ↦ let e' : failed ≡ ret 0 = rw (p, add_lines, q) at e in cc
    | inr (inr (inl (mb', q))) ↦
        let e' : ret (n + 1) ≡ ret 0 = rw (p, add_lines, q) at e in absurd (ground arith)
    | inr (inr (inr (mb', q))) ↦
        rw (p, add_lines, q)
          (collect-IsOpen mb' 0 cs (line_step-body _ mb' _ q)
            (advance-eq-zero n n _ (rw (p, add_lines, q) at e)))
  ]
]

-- A block that wants more bytes can be given them.
pub add_bytes-IsOpen :
    (mb : MessageBlock) (a : Bytes)
    → IsOpen mb
    → (add_bytes mb a).0 ≡ ret 0
    → IsOpen (add_bytes mb a).1
add_bytes-IsOpen mb a (inl h) e =
    rw (buffer-add_bytes mb a h) (add_lines-IsOpen mb [] a 0 h (rw (buffer-add_bytes mb a h) at e))
add_bytes-IsOpen mb a (inr (pos, p, h)) e =
    rw (add_bytes-body mb pos a p) (collect-IsOpen mb pos a h (rw (add_bytes-body mb pos a p) at e))
