-- ===== src/Prelude/Maps.antt =====
-- `std::map`: an association list in key order, over any strictly ordered type of keys.
use Prim.Native.Nat.{ℕ}
use mathlib.Core.Path.{◌≡◌, refl, sym, subst}
use mathlib.Core.Logic.{inl, inr}
use mathlib.Core.Bool.{Bool, true, false, not, ◌||◌}
use mathlib.Core.List.{List, [], ◌∷◌, ◌++◌}
use mathlib.Core.Option.{Option, none, some}
use native.Mathlib.Omega.{arith}
use abacuscm.Prelude.Tests.{ltb, if◌then◌else◌, Bool-cases}
use abacuscm.Prelude.Lists.{All}
use abacuscm.Prelude.Text.{Bytes, lt_bytes, lt_bytes_irrefl, lt_bytes_trans, lt_bytes-connex}

-- `std::less` of the key type.
pub record StrictOrder {ℓ} (K : Type ℓ) : Type ℓ where
  pub lt : K → K → Bool
  pub irrefl : (a : K) → lt a a ≡ false
  pub trans : (a b c : K) → lt a b ≡ true → lt b c ≡ true → lt a c ≡ true
  pub connex : (a b : K) → lt a b ≡ false → lt b a ≡ false → a ≡ b

pub ltb_irrefl : (a : ℕ) → ltb a a ≡ false
ltb_irrefl a = ground arith

pub ltb_trans : (a b c : ℕ) → ltb a b ≡ true → ltb b c ≡ true → ltb a c ≡ true
ltb_trans a b c h k = ground arith

pub ltb-connex : (a b : ℕ) → ltb a b ≡ false → ltb b a ≡ false → a ≡ b
ltb-connex a b h k = ground arith

instance abbrev pub nat_order : StrictOrder ℕ
nat_order = record { lt = ltb; irrefl = ltb_irrefl; trans = ltb_trans; connex = ltb-connex }

instance abbrev pub bytes_order : StrictOrder Bytes
bytes_order = record {
  lt = lt_bytes;
  irrefl = lt_bytes_irrefl;
  trans = lt_bytes_trans;
  connex = lt_bytes-connex;
}

-- Keys neither of which is less are the same key.
abbrev pub same {ℓ} : {K : Type ℓ} ⦃o : StrictOrder K⦄ → K → K → Bool
same ⦃o⦄ a b = not (o.lt a b || o.lt b a)

module _ {ℓ} {K : Type ℓ} ⦃o : StrictOrder K⦄ where
  pub same_refl : (k : K) → same k k ≡ true
  same_refl k = ground (arith, o.irrefl k)

  pub same→eq : (j k : K) → same j k ≡ true → j ≡ k
  same→eq j k h = ground (arith, o.connex j k)

module _ {ℓ κ} {K : Type ℓ} {V : Type κ} ⦃o : StrictOrder K⦄ where
  unfoldable pub find : K → List (K × V) → Option V
  find k [] = none
  find k ((j, v) ∷ m) = if same j k then some v else find k m

  -- `m[k] = v`.
  unfoldable pub put : K → V → List (K × V) → List (K × V)
  put k v [] = (k, v) ∷ []
  put k v ((j, w) ∷ m) =
      if o.lt k j then (k, v) ∷ (j, w) ∷ m else if o.lt j k then (j, w) ∷ put k v m else (k, v) ∷ m

  unfoldable pub erase : K → List (K × V) → List (K × V)
  erase k [] = []
  erase k ((j, w) ∷ m) = if same j k then erase k m else (j, w) ∷ erase k m

  pub find-put :
      (k j : K) (v : V) (m : List (K × V))
      → find j (put k v m) ≡ (if same k j then some v else find j m)
  unfolding find put
  find-put k j v [] = refl
  find-put k j v ((i, w) ∷ m) =
      ground (arith, o.connex k i, o.connex k j, o.connex i j, o.irrefl k, find-put k j v m)

  pub find-erase :
      (k j : K) (m : List (K × V)) → find j (erase k m) ≡ (if same k j then none else find j m)
  unfolding find erase
  find-erase k j [] = ground arith
  find-erase k j ((i, w) ∷ m) =
      ground (arith, o.connex k i, o.connex k j, o.connex i j, o.irrefl k, find-erase k j m)

  -- Every key of the map is less than `k`.
  abbrev pub Below : K → List (K × V) → Type 0
  Below k = All (λ e. o.lt e.0 k ≡ true)

  -- The keys ascend, each less than all behind it.
  abbrev pub IsSorted : List (K × V) → Type 0
  IsSorted [] = Unit
  IsSorted ((k, v) ∷ m) = All (λ e. o.lt k e.0 ≡ true) m × IsSorted m

  -- A key above all others goes to the end.
  pub put-Below : (k : K) (v : V) (m : List (K × V)) → Below k m → put k v m ≡ m ++ (k, v) ∷ []
  unfolding put
  put-Below k v [] h = refl
  put-Below k v ((j, w) ∷ m) h = ground (arith, o.trans k j k, o.irrefl k, put-Below k v m h.1)

  pub All-put :
      (P : K × V → Type 0) (k : K) (v : V) (m : List (K × V))
      → P (k, v)
      → All P m
      → All P (put k v m)
  unfolding put
  All-put P k v [] p h = (p, tt)
  All-put P k v ((j, w) ∷ m) p h = ground (arith, All-put P k v m p h.1)

  All-mono :
      {P Q : K × V → Type 0} (m : List (K × V)) → ((e : K × V) → P e → Q e) → All P m → All Q m
  All-mono [] f h = tt
  All-mono (e ∷ m) f h = (f e h.0, All-mono m f h.1)

  pub put-IsSorted : (k : K) (v : V) (m : List (K × V)) → IsSorted m → IsSorted (put k v m)
  unfolding put
  put-IsSorted k v [] s = (tt, tt)
  put-IsSorted k v ((j, w) ∷ m) s = elim (Bool-cases (o.lt k j)) [
    | inl e ↦ rw (e, put) ((e, All-mono m (λ i h. o.trans k j i.0 e h) s.0), s)
    | inr e ↦ elim (Bool-cases (o.lt j k)) [
      | inl d ↦
          rw (e, put, d) (All-put (λ i. o.lt j i.0 ≡ true) k v m d s.0, put-IsSorted k v m s.1)
      | inr d ↦
          rw (e, put, d)
            (subst (λ i. All (λ e. o.lt i e.0 ≡ true) m × IsSorted m) (sym (o.connex k j e d)) s)
    ]
  ]

  All-erase : (P : K × V → Type 0) (k : K) (m : List (K × V)) → All P m → All P (erase k m)
  unfolding erase
  All-erase P k [] h = tt
  All-erase P k ((j, w) ∷ m) h = ground (arith, All-erase P k m h.1)

  pub erase-IsSorted : (k : K) (m : List (K × V)) → IsSorted m → IsSorted (erase k m)
  unfolding erase
  erase-IsSorted k [] s = tt
  erase-IsSorted k ((j, w) ∷ m) s =
      ground (arith, All-erase (λ i. o.lt j i.0 ≡ true) k m s.0, erase-IsSorted k m s.1)
