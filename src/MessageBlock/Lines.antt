-- ===== src/MessageBlock/Lines.antt =====
-- How one call of `addBytes` goes on where another one stopped: buffered bytes, counts, content.
use abacuscm.Prelude.{
  ℕ, zero, suc, ◌+◌, ◌-◌, ◌<◌, ◌≡◌, refl, sym, ap, ◌⊎◌, inl, inr, none, some, [], ◌∷◌, ◌++◌,
  append-nil, append_assoc, arith, ◌==◌, Bool-cases, length, take, length-append, take-length,
  take-append_ge, take-append_le, Bytes, nat_order, bytes_order,
}
use native.Mathlib.Nat.{add_assoc}
use abacuscm.MessageBlock.{
  add_bytes, failed, collect, Outcome, advance, MessageBlock, ret, bytes_of, buffer, LineStep, next,
  bad, done, body, line_step, unbuffer, add_lines,
}

-- The block is between two calls, reading lines.
pub record IsReading (mb : MessageBlock) : Type 0 where
  pub no_pos : mb.content_pos ≡ none
  pub no_length : mb.content ≡ none → mb.content_length ≡ 0

-- The block has given its line back.
pub record IsFresh (mb : MessageBlock) : Type 0 where
  pub fresh_pos : mb.content_pos ≡ none
  pub fresh_content : mb.content ≡ none
  pub fresh_length : mb.content_length ≡ 0

pub IsFresh-IsReading : {mb : MessageBlock} → IsFresh mb → IsReading mb
IsFresh-IsReading f = record { no_pos = f.fresh_pos; no_length = λ _. f.fresh_length }

pub unbuffer-IsFresh : (mb : MessageBlock) → IsReading mb → IsFresh (unbuffer mb)
unfolding unbuffer
unbuffer-IsFresh mb h = ground arith

pub buffer-IsReading : (mb : MessageBlock) (s : Bytes) → IsReading mb → IsReading (buffer mb s)
unfolding buffer
buffer-IsReading mb [] h = h
buffer-IsReading mb (c ∷ cs) h = ground arith

pub unbuffer-buffer :
    (mb : MessageBlock) (s : Bytes) → IsReading mb → unbuffer (buffer mb s) ≡ unbuffer mb
unfolding unbuffer buffer
unbuffer-buffer mb [] h = refl
unbuffer-buffer mb (c ∷ cs) h = ground arith

pub bytes_of-buffer :
    (mb : MessageBlock) (s : Bytes) → bytes_of (buffer mb s).content ≡ bytes_of mb.content ++ s
unfolding buffer
bytes_of-buffer mb [] = sym (append-nil _)
bytes_of-buffer mb (c ∷ cs) = refl

pub buffer-buffer : (mb : MessageBlock) (s t : Bytes) → buffer (buffer mb s) t ≡ buffer mb (s ++ t)
unfolding buffer
buffer-buffer mb [] t = refl
buffer-buffer mb (c ∷ cs) [] = rw append-nil
buffer-buffer mb (c ∷ cs) (d ∷ ds) =
    ground (arith, length-append cs (d ∷ ds), append_assoc (bytes_of mb.content) (c ∷ cs) (d ∷ ds))

pub line_step-IsFresh :
    (mb mb' : MessageBlock) (line : Bytes) → IsFresh mb → line_step mb line ≡ next mb' → IsFresh mb'
unfolding line_step
line_step-IsFresh mb mb' line f e = ground arith

pub line_step-body :
    (mb mb' : MessageBlock) (line : Bytes) → line_step mb line ≡ body mb' → 0 < mb'.content_length
unfolding line_step
line_step-body mb mb' line e = ground arith

pub LineStep-cases :
    (r : LineStep)
    → ((mb : MessageBlock) × (r ≡ next mb))
      ⊎ ((mb : MessageBlock) × (r ≡ bad mb))
      ⊎ ((mb : MessageBlock) × (r ≡ done mb))
      ⊎ ((mb : MessageBlock) × (r ≡ body mb))
LineStep-cases (next mb) = inl (mb, refl)
LineStep-cases (bad mb) = inr (inl (mb, refl))
LineStep-cases (done mb) = inr (inr (inl (mb, refl)))
LineStep-cases (body mb) = inr (inr (inr (mb, refl)))

-- Bytes that were passed over may as well have been buffered by an earlier call.
pub resume :
    (mb : MessageBlock) (s t bs : Bytes) (n : ℕ)
    → IsReading mb
    → add_lines (buffer mb s) t bs n ≡ add_lines mb (s ++ t) bs n
unfolding add_lines
resume mb s t [] n h = ap (λ b. (ret 0, b)) (buffer-buffer mb s t)
resume mb s t (c ∷ cs) n h = elim (Bool-cases (c == 10)) [
  | inl e ↦ rw (
    e,
    add_lines,
    unbuffer-buffer mb s h,
    bytes_of-buffer mb s,
    append_assoc (bytes_of mb.content) s t,
  )
  | inr e ↦ rw (e, add_lines, resume mb s (t ++ (c ∷ [])) cs (n + 1) h, append_assoc s t (c ∷ []))
]

pub advance-zero : (k : ℕ) → advance k (ret 0) ≡ ret 0
unfolding advance
advance-zero k = refl

pub advance-pos : (k n : ℕ) → 0 < n → advance k (ret n) ≡ ret (k + n)
unfolding advance
advance-pos k n h = ground arith

pub advance-suc : (k n : ℕ) → advance k (ret (n + 1)) ≡ ret (k + n + 1)
unfolding advance
advance-suc k n = ground arith

pub advance-advance : (k n : ℕ) (o : Outcome) → advance k (advance n o) ≡ advance (k + n) o
unfolding advance
advance-advance k n failed = refl
advance-advance k n (ret zero) = refl
advance-advance k n (ret (suc m)) = ground arith

-- The count of passed bytes is only added to the result.
pub shift :
    (mb : MessageBlock) (seen bs : Bytes) (k n : ℕ)
    → add_lines mb seen bs (k + n)
      ≡ (advance k (add_lines mb seen bs n).0, (add_lines mb seen bs n).1)
unfolding add_lines advance
shift mb seen [] k n = refl
shift mb seen (c ∷ cs) k n = elim (Bool-cases (c == 10)) [
  | inr e ↦ rw (e, add_lines, add_assoc k n 1) (shift mb (seen ++ (c ∷ [])) cs k (n + 1))
  | inl e ↦ elim (LineStep-cases (line_step (unbuffer mb) (bytes_of mb.content ++ seen))) [
    | inl (mb', p) ↦ rw (e, add_lines, p, add_assoc k n 1) (shift mb' [] cs k (n + 1))
    | inr (inl (mb', p)) ↦ rw (e, add_lines, p)
    | inr (inr (inl (mb', p))) ↦ rw (e, add_lines, p) (ap (λ o. (o, mb')) (sym (advance-suc k n)))
    | inr (inr (inr (mb', p))) ↦ rw (e, add_lines, p, advance-advance k (n + 1), add_assoc k n 1)
  ]
]

pub advance-eq-suc :
    (m k : ℕ) (o : Outcome) → advance m o ≡ ret (suc k) → (j : ℕ) × (o ≡ ret (suc j))
unfolding advance
advance-eq-suc m k failed e = cc
advance-eq-suc m k (ret zero) e = absurd (ground arith)
advance-eq-suc m k (ret (suc j)) e = (j, refl)

pub suc_shift : (n k : ℕ) → n + suc k ≡ n + 1 + k
suc_shift n k = omega arith

-- Content that comes in two calls.
pub collect-append :
    (mb : MessageBlock) (pos : ℕ) (a b : Bytes)
    → pos < mb.content_length
    → (collect mb pos a).0 ≡ ret 0
    → collect mb pos (a ++ b)
      ≡ (let r = collect (collect mb pos a).1 (pos + length a) b in (advance (length a) r.0, r.1))
unfolding collect
collect-append mb pos a b h e =
    let short : length a < mb.content_length - pos = ground arith in
    let left = mb.content_length - pos - length a in
    ground (
      arith,
      length-append a b,
      append_assoc (bytes_of mb.content) a b,
      append_assoc (bytes_of mb.content) a (take left b),
      take-length a,
      take-length b,
      take-length (a ++ b),
      take-append_ge (mb.content_length - pos) left a b,
      advance-zero (length a),
      advance-pos (length a) (mb.content_length - (pos + length a)),
    )

pub collect_extra :
    (mb : MessageBlock) (pos n : ℕ) (a b : Bytes)
    → (collect mb pos a).0 ≡ ret (suc n)
    → collect mb pos (a ++ b) ≡ collect mb pos a
unfolding collect
collect_extra mb pos n a b e =
    ground (arith, length-append a b, take-append_le (mb.content_length - pos) a b)

pub buffer-add_bytes :
    (mb : MessageBlock) (b : Bytes) → IsReading mb → add_bytes mb b ≡ add_lines mb [] b 0
unfolding add_bytes
buffer-add_bytes mb b h = rw h.no_pos

pub add_bytes-body :
    (mb : MessageBlock) (pos : ℕ) (b : Bytes)
    → mb.content_pos ≡ some pos
    → add_bytes mb b ≡ collect mb pos b
unfolding add_bytes
add_bytes-body mb pos b h = rw h

pub collect-pos :
    (mb : MessageBlock) (pos : ℕ) (a : Bytes)
    → pos < mb.content_length
    → (collect mb pos a).0 ≡ ret 0
    → (collect mb pos a).1.content_pos ≡ some (pos + length a)
unfolding collect
collect-pos mb pos a h e = ground arith

-- A call that wants more bytes, and the next one.
abbrev pub resumed : ℕ → Outcome × MessageBlock → Outcome × MessageBlock
resumed n r = (advance n r.0, r.1)

pub advance-eq-zero : (k n : ℕ) (o : Outcome) → advance (k + 1) o ≡ ret 0 → o ≡ ret 0
unfolding advance
advance-eq-zero k n o e = ground arith

pub body-append :
    (mb : MessageBlock) (n : ℕ) (a b : Bytes)
    → 0 < mb.content_length
    → (collect mb 0 a).0 ≡ ret 0
    → resumed (n + 1) (collect mb 0 (a ++ b))
      ≡ resumed (n + suc (length a)) (add_bytes (collect mb 0 a).1 b)
body-append mb n a b h z = rw (
  collect-append mb 0 a b h z,
  add_bytes-body (collect mb 0 a).1 (0 + length a) b (collect-pos mb 0 a h z),
  advance-advance (n + 1) (length a),
  suc_shift n (length a),
)

pub collect_missing :
    (mb : MessageBlock) (pos : ℕ) (a : Bytes)
    → pos < mb.content_length
    → (collect mb pos a).0 ≡ ret 0
    → pos + length a < (collect mb pos a).1.content_length
unfolding collect
collect_missing mb pos a h e = ground arith
