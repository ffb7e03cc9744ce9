-- ===== src/UdpMessenger/Collections.antt =====
-- Maps of fragments whose keys lie in a range: how many there can be, and when all are there.
use abacuscm.Prelude.{
  ℕ, zero, suc, ◌+◌, ◌≤◌, ◌<◌, ◌≡◌, refl, ap, ◌∙◌, subst, inl, inr, Bool, true, false, ◌||◌, none,
  some, List, [], ◌∷◌, ◌++◌, arith, ltb, ◌==◌, Bool-cases, length, All, Bytes, nat_order,
  bytes_order, same, find, put, same→eq, find-put, IsSorted,
}
use abacuscm.UdpMessenger.Receive.{blob_of}

-- Whether the fragment `k` is there.
abbrev pub has : ℕ → List (ℕ × Bytes) → Bool
has k m = elim (find k m) [ none ↦ false | some v ↦ true ]

-- The data of `k` fragments from number `lo` on.
unfoldable pub span : (ℕ → Bytes) → ℕ → ℕ → Bytes
span part lo zero = []
span part lo (suc k) = part lo ++ span part (suc lo) k

pub has-put : (k j : ℕ) (v : Bytes) (m : List (ℕ × Bytes)) → has j (put k v m) ≡ (k == j || has j m)
has-put k j v m = ground (arith, find-put k j v m)

-- The entries lie in the range, and carry their part.
abbrev pub Within : (ℕ → Bytes) → ℕ → ℕ → ℕ × Bytes → Type 0
Within part lo hi e = (lo ≤ e.0) × (e.0 < hi) × (e.1 ≡ part e.0)

pub All-impl :
    {P Q : ℕ × Bytes → Type 0} (m : List (ℕ × Bytes))
    → ((e : ℕ × Bytes) → P e → Q e)
    → All P m
    → All Q m
All-impl [] f h = tt
All-impl (e ∷ m) f h = (f e h.0, All-impl m f h.1)

-- Behind the key `j` of a sorted map the range begins at `suc j`.
All-tail :
    (part : ℕ → Bytes) (lo hi j : ℕ) (m : List (ℕ × Bytes))
    → All (λ e. ltb j e.0 ≡ true) m
    → All (Within part lo hi) m
    → All (Within part (suc j) hi) m
All-tail part lo hi j [] s w = tt
All-tail part lo hi j (e ∷ m) s w =
    ((ground (arith, s.0), w.0.1, w.0.2), All-tail part lo hi j m s.1 w.1)

pub has-All :
    (P : ℕ × Bytes → Type 0) (k : ℕ) (m : List (ℕ × Bytes))
    → has k m ≡ true
    → All P m
    → (v : Bytes) × P (k, v)
unfolding find
has-All P k [] h w = absurd (ground arith)
has-All P k ((j, v) ∷ m) h w = elim (Bool-cases (same j k)) [
  | inl e ↦ (v, subst (λ i. P (i, v)) (same→eq j k e) w.0)
  | inr e ↦ has-All P k m (ground (arith, e)) w.1
]

-- There are no more entries than numbers in the range.
pub length-Within :
    (part : ℕ → Bytes) (lo hi : ℕ) (m : List (ℕ × Bytes))
    → IsSorted m
    → All (Within part lo hi) m
    → lo ≤ hi
    → length m + lo ≤ hi
length-Within part lo hi [] s w h = omega arith
length-Within part lo hi ((j, v) ∷ m) s w h =
    let r : length m + suc j ≤ hi =
      length-Within part (suc j) hi m s.1 (All-tail part lo hi j m s.0 w.1) (omega (arith, w.0)) in
    omega (arith, w.0, r)

-- Where there are as many entries as numbers they are the parts in order.
pub blob_of-span :
    (part : ℕ → Bytes) (lo hi : ℕ) (m : List (ℕ × Bytes))
    → IsSorted m
    → All (Within part lo hi) m
    → length m + lo ≡ hi
    → blob_of m ≡ span part lo (length m)
unfolding blob_of span
blob_of-span part lo hi [] s w h = refl
blob_of-span part lo hi ((j, v) ∷ m) s w h =
    let t : All (Within part (suc j) hi) m = All-tail part lo hi j m s.0 w.1 in
    let r : length m + suc j ≤ hi = length-Within part (suc j) hi m s.1 t (omega (arith, w.0)) in
    let e : j ≡ lo = omega (arith, w.0, r) in
    ap (λ p. p ++ blob_of m) (w.0.2 ∙ ap part e)
    ∙ ap (◌++◌ (part lo)) (
        blob_of-span part (suc j) hi m s.1 t (omega (arith, e, h))
        ∙ ap (λ i. span part (suc i) (length m)) e)

-- Where there are as many entries as numbers, each number is there.
pub has-Within :
    (part : ℕ → Bytes) (lo hi k : ℕ) (m : List (ℕ × Bytes))
    → IsSorted m
    → All (Within part lo hi) m
    → length m + lo ≡ hi
    → lo ≤ k
    → k < hi
    → has k m ≡ true
unfolding find
has-Within part lo hi k [] s w h a b = absurd (omega arith)
has-Within part lo hi k ((j, v) ∷ m) s w h a b =
    let t : All (Within part (suc j) hi) m = All-tail part lo hi j m s.0 w.1 in
    let r : length m + suc j ≤ hi = length-Within part (suc j) hi m s.1 t (omega (arith, w.0)) in
    let e : j ≡ lo = omega (arith, w.0, r) in
    elim (Bool-cases (same j k)) [
      | inl q ↦ ground (arith, q)
      | inr q ↦
          let i : has k m ≡ true =
            has-Within part (suc j) hi k m s.1 t (omega (arith, e, h)) (ground (arith, e, q)) b in
          ground (arith, q, i)
    ]

-- Where each number of the range is there, there are as many entries as numbers.
pub Within-length :
    (part : ℕ → Bytes) (lo hi : ℕ) (m : List (ℕ × Bytes))
    → IsSorted m
    → All (Within part lo hi) m
    → ((k : ℕ) → lo ≤ k → k < hi → has k m ≡ true)
    → hi ≤ length m + lo
unfolding find
Within-length part lo hi [] s w f = ground (arith, f lo)
Within-length part lo hi ((j, v) ∷ m) s w f =
    let t : All (Within part (suc j) hi) m = All-tail part lo hi j m s.0 w.1 in
    let g : (k : ℕ) → suc j ≤ k → k < hi → has k m ≡ true =
      λ k a b. ground (arith, f k (omega (arith, w.0)) b) in
    let e : j ≤ lo = elim (Bool-cases (same j lo)) [
      | inl q ↦ ground (arith, q)
      | inr q ↦
          let (u, i) =
            has-All (Within part (suc j) hi) lo m
              (ground (arith, f lo (omega arith) (omega (arith, w.0)), q)) t in
          absurd (omega (arith, i, w.0))
    ] in
    omega (arith, e, Within-length part (suc j) hi m s.1 t g)

pub length-put :
    (k : ℕ) (v : Bytes) (m : List (ℕ × Bytes))
    → has k m ≡ false
    → length (put k v m) ≡ suc (length m)
unfolding put find
length-put k v [] h = refl
length-put k v ((j, w) ∷ m) h = ground (arith, length-put k v m)
