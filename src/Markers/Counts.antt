-- ===== src/Markers/Counts.antt =====
-- How often a submission is in the pool, and what the private methods of src/markers.C do to that.
use abacuscm.Prelude.{
  ℕ, ◌+◌, ◌≡◌, refl, sym, subst, inl, inr, true, none, some, List, [], ◌∷◌, ◌++◌, arith, ltb, ◌==◌,
  if◌then◌else◌, Bool-cases, Option-cases, All, list-cases, nat_order, bytes_order, same, find, put,
  erase, IsSorted,
}
use abacuscm.Markers.{
  Db, Markers, contains, retrieve, issue, real_enqueue_submission, real_enqueue_marker,
}
use abacuscm.Markers.Pool.{Inv}

unfoldable pub one : ℕ → ℕ → ℕ
one x a = if x == a then 1 else 0

unfoldable pub count : ℕ → List ℕ → ℕ
count a [] = 0
count a (x ∷ xs) = one x a + count a xs

unfoldable pub count_issued : ℕ → List (ℕ × ℕ) → ℕ
count_issued a [] = 0
count_issued a ((cc, sd) ∷ m) = one sd a + count_issued a m

-- How often a submission is in the pool: waiting or issued.
unfoldable pub held : ℕ → Markers → ℕ
held a s = count a s.problems + count_issued a s.issued

count-append : (a : ℕ) (xs : List ℕ) (y : ℕ) → count a (xs ++ y ∷ []) ≡ count a xs + one y a
unfolding count
count-append a [] y = omega arith
count-append a (x ∷ xs) y = omega (arith, count-append a xs y)

count_issued-put :
    (a k v : ℕ) (m : List (ℕ × ℕ))
    → find k m ≡ none
    → count_issued a (put k v m) ≡ count_issued a m + one v a
unfolding count_issued find put
count_issued-put a k v [] h = omega arith
count_issued-put a k v ((j, w) ∷ m) h = ground (arith, count_issued-put a k v m)

erase-none : (k : ℕ) (m : List (ℕ × ℕ)) → find k m ≡ none → erase k m ≡ m
unfolding find erase
erase-none k [] h = refl
erase-none k ((j, w) ∷ m) h = ground (arith, erase-none k m)

Above-find : (k : ℕ) (m : List (ℕ × ℕ)) → All (λ e. ltb k e.0 ≡ true) m → find k m ≡ none
unfolding find
Above-find k [] h = refl
Above-find k ((j, w) ∷ m) h = ground (arith, Above-find k m h.1)

pub count_issued-erase :
    (a k v : ℕ) (m : List (ℕ × ℕ))
    → IsSorted m
    → find k m ≡ some v
    → count_issued a (erase k m) + one v a ≡ count_issued a m
unfolding count_issued find erase
count_issued-erase a k v [] s h = cc
count_issued-erase a k v ((j, w) ∷ m) s h = elim (Bool-cases (same k j)) [
  | inl e ↦
      let q : k ≡ j = ground arith in
      let n : find k m ≡ none =
        Above-find k m (subst (λ i. All (λ e. ltb i e.0 ≡ true) m) (sym q) s.0) in
      ground (arith, erase-none k m n)
  | inr e ↦ ground (arith, count_issued-erase a k v m s.1)
]

pub issue-held :
    (db : Db) (now : ℕ) (s : Markers) (cc sd a : ℕ)
    → find cc s.issued ≡ none
    → held a (issue db now s cc sd) ≡ held a s + one sd a
unfolding held issue count
issue-held db now s cc sd a h = elim (Option-cases (retrieve db sd)) [
  | inl e ↦ rw (e, issue) (omega (arith, count-append a s.problems sd))
  | inr (d, e) ↦ rw (e, issue) (omega (arith, count_issued-put a cc sd s.issued h))
]

pub real_enqueue_submission-held :
    (db : Db) (now : ℕ) (s : Markers) (sd a : ℕ)
    → Inv s
    → held a (real_enqueue_submission db now s sd) ≡ held a s + one sd a
unfolding real_enqueue_submission held contains
real_enqueue_submission-held db now s sd a v = elim (list-cases s.markers) [
  | inl e ↦ rw e (omega (arith, count-append a s.problems sd))
  | inr (client, rest, e) ↦ rw e (
      issue-held db now (record s { markers = rest }) client sd a
        (v.separate client (rw e (ground arith))))
]

pub real_enqueue_marker-held :
    (db : Db) (now : ℕ) (s : Markers) (cc a : ℕ)
    → find cc s.issued ≡ none
    → held a (real_enqueue_marker db now s cc) ≡ held a s
unfolding real_enqueue_marker held count
real_enqueue_marker-held db now s cc a h = elim (list-cases s.problems) [
  | inl e ↦ rw e refl
  | inr (sd, rest, e) ↦
      rw e (omega (arith, issue-held db now (record s { problems = rest }) cc sd a h))
]
