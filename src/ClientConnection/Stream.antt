-- ===== src/ClientConnection/Stream.antt =====
-- The blocks that a connection hands over do not depend on how the stream is cut into chunks.
use abacuscm.Prelude.{
  ℕ, zero, suc, ◌+◌, ◌≤◌, ◌≡◌, refl, sym, ap, ◌∙◌, subst, ◌⊎◌, inl, inr, true, false, Option, none,
  some, [], ◌∷◌, ◌++◌, append-nil, arith, length, drop, length-append, Bytes, nat_order,
  bytes_order,
}
use abacuscm.MessageBlock.{advance, MessageBlock, Outcome, failed, ret, add_bytes}
use abacuscm.MessageBlock.Lines.{resumed}
use abacuscm.MessageBlock.Chunks.{IsOpen, add_bytes-append, add_bytes_extra, add_bytes-IsOpen}
use abacuscm.MessageBlock.Counts.{add_bytes_failed, add_bytes-le, new-IsReading}
use abacuscm.ClientConnection.{Read, current, handed_over, read_loop, read_chunk}

-- The connection can go on: its incomplete block wants more bytes.
abbrev pub IsWaiting : Option MessageBlock → Type 0
IsWaiting m = IsOpen (current m)

pub none-IsWaiting : IsWaiting none
unfolding current
none-IsWaiting = inl (new-IsReading [])

-- The three ways in which a call of `addBytes` ends.
Outcome-cases :
    (r : Outcome × MessageBlock)
    → (r ≡ (failed, r.1)) ⊎ (r ≡ (ret 0, r.1)) ⊎ ((k : ℕ) × (r ≡ (ret (suc k), r.1)))
Outcome-cases (failed, mb) = inl refl
Outcome-cases (ret zero, mb) = inr (inl refl)
Outcome-cases (ret (suc k), mb) = inr (inr (k, refl))

module _ (f : ℕ) (m : Option MessageBlock) (c : ℕ) (cs : Bytes) (mb : MessageBlock) where
  read_loop_refused :
      add_bytes (current m) (c ∷ cs) ≡ (failed, mb)
      → read_loop (suc f) m (c ∷ cs) ≡ record { processed = []; pending = some mb; closed = true }
  unfolding read_loop
  read_loop_refused e = rw (e, read_loop, e)

  read_loop_more :
      add_bytes (current m) (c ∷ cs) ≡ (ret 0, mb)
      → read_loop (suc f) m (c ∷ cs) ≡ record { processed = []; pending = some mb; closed = false }
  unfolding read_loop
  read_loop_more e = rw (e, read_loop, e)

  read_loop_complete :
      (k : ℕ)
      → add_bytes (current m) (c ∷ cs) ≡ (ret (suc k), mb)
      → read_loop (suc f) m (c ∷ cs) ≡ handed_over mb (read_loop f none (drop (suc k) (c ∷ cs)))
  unfolding read_loop
  read_loop_complete k e = rw (e, read_loop, e)

length-drop-suc : (k : ℕ) (c : ℕ) (cs : Bytes) → length (drop (suc k) (c ∷ cs)) ≤ length cs
length-drop-suc zero c cs = omega arith
length-drop-suc (suc k) c [] = omega arith
length-drop-suc (suc k) c (d ∷ cs) = omega (arith, length-drop-suc k d cs)

-- More fuel than bytes changes nothing.
read_loop_fuel :
    (f g : ℕ) (m : Option MessageBlock) (a : Bytes)
    → length a ≤ f
    → length a ≤ g
    → read_loop f m a ≡ read_loop g m a
unfolding read_loop
read_loop_fuel f g m [] h k = refl
read_loop_fuel zero g m (c ∷ cs) h k = elim h [ ]
read_loop_fuel (suc f) zero m (c ∷ cs) h k = elim k [ ]
read_loop_fuel (suc f) (suc g) m (c ∷ cs) h k =
    let r = add_bytes (current m) (c ∷ cs) in
    elim (Outcome-cases r) [
      | inl e ↦ read_loop_refused f m c cs r.1 e ∙ sym (read_loop_refused g m c cs r.1 e)
      | inr (inl e) ↦ read_loop_more f m c cs r.1 e ∙ sym (read_loop_more g m c cs r.1 e)
      | inr (inr (n, e)) ↦
          read_loop_complete f m c cs r.1 n e
          ∙ ap (handed_over r.1) (
              read_loop_fuel f g none (drop (suc n) (c ∷ cs))
                (omega (arith, length-drop-suc n c cs)) (omega (arith, length-drop-suc n c cs)))
          ∙ sym (read_loop_complete g m c cs r.1 n e)
    ]

-- Going on with the bytes `b` after what came of the bytes in front of them.
unfoldable pub continue : Read → Bytes → Read
continue r b = elim r.closed [
  | true ↦ r
  | false ↦
      let rest = read_chunk r.pending b in record rest { processed = r.processed ++ rest.processed }
]

continue-handed_over :
    (mb : MessageBlock) (r : Read) (b : Bytes)
    → continue (handed_over mb r) b ≡ handed_over mb (continue r b)
unfolding continue handed_over
continue-handed_over mb r b = ground arith

drop-resumed : (n : ℕ) (a b : Bytes) → drop (length a + suc n) (a ++ b) ≡ drop (suc n) b
drop-resumed n [] b = let e : 0 + suc n ≡ suc n = omega arith in ap (λ k. drop k b) e
drop-resumed n (c ∷ cs) b =
    let e : length (c ∷ cs) + suc n ≡ suc (length cs + suc n) = omega arith in
    ap (λ k. drop k (c ∷ (cs ++ b))) e ∙ drop-resumed n cs b

drop-append_le : (n : ℕ) (a b : Bytes) → n ≤ length a → drop n (a ++ b) ≡ drop n a ++ b
drop-append_le zero a b h = refl
drop-append_le (suc n) [] b h = absurd (omega arith)
drop-append_le (suc n) (c ∷ cs) b h = drop-append_le n cs b (omega arith)

resumed-suc :
    (j n : ℕ) (mb : MessageBlock) → resumed (suc j) (ret (suc n), mb) ≡ (ret (suc (j + suc n)), mb)
unfolding advance
resumed-suc j n mb =
    let q : suc j + suc n ≡ suc (j + suc n) = omega arith in ap (λ k. (ret k, mb)) q

-- The bytes that follow an incomplete block, read in one chunk with it or in one of their own.
read_loop-pending :
    (g : ℕ) (m : Option MessageBlock) (c : ℕ) (cs b : Bytes) (mb : MessageBlock)
    → IsWaiting m
    → add_bytes (current m) (c ∷ cs) ≡ (ret 0, mb)
    → length (cs ++ b) ≤ g
    → read_loop (suc g) m (c ∷ (cs ++ b)) ≡ read_chunk (some mb) b
unfolding read_chunk current
read_loop-pending g m c cs [] mb w e k =
    ap (λ t. read_loop (suc g) m (c ∷ t)) (append-nil cs)
    ∙ read_loop_more g m c cs mb e
    ∙ unfold read_loop in refl
read_loop-pending g m c cs (d ∷ ds) mb w e k =
    let r = add_bytes mb (d ∷ ds) in
    let joined : add_bytes (current m) (c ∷ (cs ++ (d ∷ ds))) ≡ resumed (length (c ∷ cs)) r =
      add_bytes-append (current m) (c ∷ cs) (d ∷ ds) w (ap (λ q. q.0) e)
      ∙ ap (λ q. resumed (length (c ∷ cs)) (add_bytes q.1 (d ∷ ds))) e in
    elim (Outcome-cases r) [
      | inl p ↦
          read_loop_refused g m c _ r.1 (joined ∙ ap (resumed _) p ∙ unfold advance in refl)
          ∙ sym (read_loop_refused (length ds) (some mb) d ds r.1 p)
      | inr (inl p) ↦
          read_loop_more g m c _ r.1 (joined ∙ ap (resumed _) p ∙ unfold advance in refl)
          ∙ sym (read_loop_more (length ds) (some mb) d ds r.1 p)
      | inr (inr (n, p)) ↦
          read_loop_complete g m c _ r.1 (length cs + suc n)
            (joined ∙ ap (resumed _) p ∙ resumed-suc (length cs) n r.1)
          ∙ ap (handed_over r.1) (
              ap (read_loop g none) (drop-resumed n cs (d ∷ ds))
              ∙ read_loop_fuel g (length ds) none (drop (suc n) (d ∷ ds))
                  (omega (arith, length-append cs (d ∷ ds), length-drop-suc n d ds))
                  (length-drop-suc n d ds))
          ∙ sym (read_loop_complete (length ds) (some mb) d ds r.1 n p)
    ]

pub read_loop-append :
    (f g : ℕ) (m : Option MessageBlock) (a b : Bytes)
    → IsWaiting m
    → length a ≤ f
    → length (a ++ b) ≤ g
    → read_loop g m (a ++ b) ≡ continue (read_loop f m a) b
unfolding continue read_chunk
read_loop-append f g m [] b w h k =
    unfold read_loop in read_loop_fuel g (length b) m b k (omega arith)
read_loop-append zero g m (c ∷ cs) b w h k = elim h [ ]
read_loop-append (suc f) zero m (c ∷ cs) b w h k = elim k [ ]
read_loop-append (suc f) (suc g) m (c ∷ cs) b w h k =
    let r = add_bytes (current m) (c ∷ cs) in
    elim (Outcome-cases r) [
      | inl e ↦
          read_loop_refused g m c (cs ++ b) r.1
            (add_bytes_failed (current m) (c ∷ cs) b w (ap (λ q. q.0) e) ∙ e)
          ∙ sym (ap (λ t. continue t b) (read_loop_refused f m c cs r.1 e))
      | inr (inl e) ↦
          read_loop-pending g m c cs b r.1 w e (omega arith)
          ∙ sym (ap (λ t. continue t b) (read_loop_more f m c cs r.1 e))
      | inr (inr (n, e)) ↦
          let e₀ = ap (λ q. q.0) e in
          let rest = drop (suc n) (c ∷ cs) in
          read_loop_complete g m c (cs ++ b) r.1 n
            (add_bytes_extra (current m) n (c ∷ cs) b w e₀ ∙ e)
          ∙ ap (λ t. handed_over r.1 (read_loop g none t))
              (drop-append_le (suc n) (c ∷ cs) b (add_bytes-le (current m) n (c ∷ cs) w e₀))
          ∙ ap (handed_over r.1) (
              read_loop-append f g none rest b none-IsWaiting
                (omega (arith, length-drop-suc n c cs))
                (omega (arith, length-append rest b, length-append cs b, length-drop-suc n c cs)))
          ∙ sym (continue-handed_over r.1 (read_loop f none rest) b)
          ∙ sym (ap (λ t. continue t b) (read_loop_complete f m c cs r.1 n e))
    ]

pub read_loop-IsWaiting :
    (f : ℕ) (m : Option MessageBlock) (a : Bytes)
    → IsWaiting m
    → length a ≤ f
    → (read_loop f m a).closed ≡ false
    → IsWaiting (read_loop f m a).pending
unfolding read_loop current handed_over
read_loop-IsWaiting f m [] w h o = w
read_loop-IsWaiting zero m (c ∷ cs) w h o = elim h [ ]
read_loop-IsWaiting (suc f) m (c ∷ cs) w h o =
    let r = add_bytes (current m) (c ∷ cs) in
    elim (Outcome-cases r) [
      | inl e ↦
          let o' : true ≡ false = sym (ap (λ t. t.closed) (read_loop_refused f m c cs r.1 e)) ∙ o in
          cc
      | inr (inl e) ↦
          subst (λ t. IsWaiting t.pending) (sym (read_loop_more f m c cs r.1 e))
            (add_bytes-IsOpen (current m) (c ∷ cs) w (ap (λ q. q.0) e))
      | inr (inr (n, e)) ↦
          let p = read_loop_complete f m c cs r.1 n e in
          subst (λ t. IsWaiting t.pending) (sym p)
            (read_loop-IsWaiting f none (drop (suc n) (c ∷ cs)) none-IsWaiting
              (omega (arith, length-drop-suc n c cs)) (sym (ap (λ t. t.closed) p) ∙ o))
    ]
