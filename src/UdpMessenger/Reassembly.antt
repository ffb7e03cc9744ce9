-- ===== src/UdpMessenger/Reassembly.antt =====
-- A message is complete when each of its fragments has arrived, in whatever order and however often.
use abacuscm.Prelude.{
  ℕ, zero, suc, ◌+◌, ◌%◌, ◌^◌, ◌≤◌, ◌<◌, ◌≡◌, refl, subst, ◌⊎◌, inl, inr, Bool, true, false, ◌&&◌,
  ◌||◌, List, [], ◌∷◌, arith, leb, ◌==◌, Bool-cases, length, All, Bytes, nat_order, bytes_order,
  find, put, IsSorted, All-put, put-IsSorted,
}
use abacuscm.UdpMessenger.Receive.{Collection, counted}
use abacuscm.UdpMessenger.Collections.{
  has, has-put, Within, All-impl, has-All, length-Within, Within-length, length-put,
}

-- A collection of fragments of a message of `n`.
pub record Collecting (n : ℕ) (part : ℕ → Bytes) (c : Collection) : Type 0 where
  pub sorted : IsSorted c.fragments
  pub entries : All (Within part 1 (suc n)) c.fragments
  pub received : c.fragments_received ≡ length c.fragments
  pub number :
      (c.num_fragments ≡ n) ⊎ (All (λ e. e.0 < c.num_fragments) c.fragments × (c.num_fragments ≤ n))

unfoldable pub member : ℕ → List ℕ → Bool
member k [] = false
member k (i ∷ is) = i == k || member k is

-- Each of the numbers 1 to `n` is in the list.
unfoldable pub arrived : ℕ → List ℕ → Bool
arrived zero order = true
arrived (suc n) order = member (suc n) order && arrived n order

-- Each of the numbers 1 to `n` is in the list or in the map.
unfoldable pub covers : ℕ → List (ℕ × Bytes) → List ℕ → Bool
covers zero m order = true
covers (suc n) m order = (member (suc n) order || has (suc n) m) && covers n m order

pub covers-nil : (n : ℕ) (order : List ℕ) → covers n [] order ≡ arrived n order
unfolding covers arrived find
covers-nil zero order = refl
covers-nil (suc n) order = ground (arith, covers-nil n order)

pub covers-put :
    (n i : ℕ) (v : Bytes) (m : List (ℕ × Bytes)) (order : List ℕ)
    → covers n (put i v m) order ≡ covers n m (i ∷ order)
unfolding covers member
covers-put zero i v m order = refl
covers-put (suc n) i v m order = ground (arith, has-put i (suc n) v m, covers-put n i v m order)

-- What is there counts for nothing when it arrives.
pub covers-has :
    (n i : ℕ) (m : List (ℕ × Bytes)) (order : List ℕ)
    → has i m ≡ true
    → covers n m order ≡ covers n m (i ∷ order)
unfolding covers member
covers-has zero i m order h = refl
covers-has (suc n) i m order h = elim (Bool-cases (i == suc n)) [
  | inl e ↦
      let q : i ≡ suc n = ground arith in
      let k : has (suc n) m ≡ true = subst (λ j. has j m ≡ true) q h in
      ground (arith, k, covers-has n i m order h)
  | inr e ↦ ground (arith, e, covers-has n i m order h)
]

pub covers-all :
    (n : ℕ) (m : List (ℕ × Bytes)) (order : List ℕ)
    → ((k : ℕ) → 1 ≤ k → k < suc n → has k m ≡ true)
    → covers n m order ≡ true
unfolding covers
covers-all zero m order f = refl
covers-all (suc n) m order f =
    let q : has (suc n) m ≡ true = f (suc n) (omega arith) (omega arith) in
    ground (arith, q, covers-all n m order (λ k a b. f k a (omega arith)))

pub covers-has_all :
    (n : ℕ) (m : List (ℕ × Bytes))
    → covers n m [] ≡ true
    → (k : ℕ) → 1 ≤ k
    → k < suc n
    → has k m ≡ true
unfolding covers member
covers-has_all zero m h k a b = absurd (omega arith)
covers-has_all (suc n) m h k a b = elim (Bool-cases (k == suc n)) [
  | inl e ↦
      let q : suc n ≡ k = ground arith in
      let t : has (suc n) m ≡ true = ground arith in subst (λ j. has j m ≡ true) q t
  | inr e ↦ covers-has_all n m (ground arith) k a (ground arith)
]

module _ (n : ℕ) (part : ℕ → Bytes) (some_parts : 1 ≤ n) (few_parts : n < 2 ^ 15) where
  -- The counts agree only on a collection of all fragments.
  pub full-length :
      (c : Collection)
      → Collecting n part c
      → 1 ≤ length c.fragments
      → c.fragments_received ≡ c.num_fragments
      → length c.fragments ≡ n
  full-length c w some' e = elim w.number [
    | inl q ↦ omega (arith, w.received, e, q)
    | inr (below, le) ↦
        let r : length c.fragments + 1 ≤ c.num_fragments =
          length-Within part 1 c.num_fragments c.fragments w.sorted
            (both c.num_fragments c.fragments w.entries below) (omega (arith, w.received, e)) in
        absurd (omega (arith, w.received, e, r))
  ]
    where
      both :
          (hi : ℕ) (m : List (ℕ × Bytes))
          → All (Within part 1 (suc n)) m
          → All (λ e. e.0 < hi) m
          → All (Within part 1 hi) m
      both hi [] a b = tt
      both hi (x ∷ m) a b = ((a.0.0, b.0, a.0.2), both hi m a.1 b.1)

  pub length-full :
      (c : Collection)
      → Collecting n part c
      → covers n c.fragments [] ≡ true
      → c.fragments_received ≡ c.num_fragments
  length-full c w h =
      let f : (k : ℕ) → 1 ≤ k → k < suc n → has k c.fragments ≡ true =
        covers-has_all n c.fragments h in
      let lo : suc n ≤ length c.fragments + 1 =
        Within-length part 1 (suc n) c.fragments w.sorted w.entries f in
      let hi : length c.fragments + 1 ≤ suc n =
        length-Within part 1 (suc n) c.fragments w.sorted w.entries (omega arith) in
      elim w.number [
        | inl q ↦ omega (arith, w.received, q, lo, hi)
        | inr (below, le) ↦
            let (v, b) =
              has-All (λ e. e.0 < c.num_fragments) n c.fragments (f n some_parts (omega arith))
                below in
            absurd (omega (arith, b, le))
      ]

  -- The collection that a new fragment leaves.
  abbrev pub added : ℕ → Collection → Collection
  added i c = record {
    num_fragments = counted i (i == n) c.num_fragments;
    fragments_received = (c.fragments_received + 1) % 2 ^ 16;
    fragments = put i (part i) c.fragments;
  }

  pub counted-number :
      (i : ℕ) (c : Collection)
      → Collecting n part c
      → 1 ≤ i
      → i ≤ n
      → (counted i (i == n) c.num_fragments ≡ n)
        ⊎ (All (λ e. e.0 < counted i (i == n) c.num_fragments) (put i (part i) c.fragments)
            × (counted i (i == n) c.num_fragments ≤ n))
  unfolding counted
  counted-number i c w a b = elim w.number [
    | inl q ↦ inl (ground arith)
    | inr (below, le) ↦ elim (Bool-cases (i == n)) [
      | inl e ↦ elim (Bool-cases (leb c.num_fragments i)) [
        | inl l ↦ inl (ground arith)
        | inr l ↦ absurd (ground arith)
      ]
      | inr e ↦ elim (Bool-cases (leb c.num_fragments i)) [
        | inl l ↦
            let t : (i + 1) % 2 ^ 16 ≡ i + 1 = omega arith in
            inr (
              rw (e, l, t)
                (
                  All-put (λ x. x.0 < i + 1) i (part i) c.fragments (omega arith)
                      (All-impl c.fragments (λ x h. ground arith) below),
                  ground arith,
                ))
        | inr l ↦ inr (
            rw (e, l)
              (
                All-put (λ x. x.0 < c.num_fragments) i (part i) c.fragments (ground arith) below,
                le,
              ))
      ]
    ]
  ]

  pub added-Collecting :
      (i : ℕ) (c : Collection)
      → Collecting n part c
      → has i c.fragments ≡ false
      → 1 ≤ i
      → i ≤ n
      → Collecting n part (added i c)
  added-Collecting i c w h a b =
      let l : length (put i (part i) c.fragments) ≡ suc (length c.fragments) =
        length-put i (part i) c.fragments h in
      let s : IsSorted (put i (part i) c.fragments) =
        put-IsSorted i (part i) c.fragments w.sorted in
      let e : All (Within part 1 (suc n)) (put i (part i) c.fragments) =
        All-put (Within part 1 (suc n)) i (part i) c.fragments (a, omega arith, refl) w.entries in
      let u : length (put i (part i) c.fragments) + 1 ≤ suc n =
        length-Within part 1 (suc n) (put i (part i) c.fragments) s e (omega arith) in
      record {
        sorted = s;
        entries = e;
        received = omega (arith, w.received, l, u);
        number = counted-number i c w a b;
      }
