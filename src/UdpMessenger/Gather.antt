-- ===== src/UdpMessenger/Gather.antt =====
-- The fragments of one message, from the first that arrives to the one that makes it complete.
use abacuscm.Prelude.{
  ℕ, suc, ◌+◌, ◌%◌, ◌^◌, ◌≤◌, ◌<◌, ◌≡◌, refl, sym, ap, ◌∙◌, inl, inr, true, false, Option, none,
  some, List, [], ◌∷◌, arith, ◌==◌, if◌then◌else◌, ==_iff, Bool-cases, Option-cases, length, All,
  Bytes, nat_order, bytes_order, find, put,
}
use abacuscm.UdpMessenger.Receive.{Collection, blob_of, counted, add_fragment}
use abacuscm.UdpMessenger.Collections.{has-All, has, span, blob_of-span, has-Within, length-put}
use abacuscm.UdpMessenger.Reassembly.{
  Collecting, covers, covers-put, covers-has, covers-all, full-length, length-full, added,
  added-Collecting,
}

-- The data that is put together when the fragments in `order` come in, if the message gets complete.
unfoldable pub gather : ℕ → (ℕ → Bytes) → List ℕ → Collection → Option Bytes
gather n part [] c = none
gather n part (i ∷ order) c =
    let r = add_fragment i (i == n) (part i) c in
    let rest = gather n part order r.0 in if r.1 then some (blob_of r.0.fragments) else rest

-- Every number in the list is that of a fragment.
abbrev pub InRange : ℕ → List ℕ → Type 0
InRange n = All (λ i. (1 ≤ i) × (i ≤ n))

has-some : (i : ℕ) (m : List (ℕ × Bytes)) → has i m ≡ true → (v : Bytes) × (find i m ≡ some v)
has-some i m h = elim (Option-cases (find i m)) [ inl e ↦ absurd (ground arith) | inr p ↦ p ]

has-none : (i : ℕ) (m : List (ℕ × Bytes)) → has i m ≡ false → find i m ≡ none
has-none i m h = elim (Option-cases (find i m)) [ inl e ↦ e | inr (v, e) ↦ absurd (ground arith) ]

module _ (n : ℕ) (part : ℕ → Bytes) (some_parts : 1 ≤ n) (few_parts : n < 2 ^ 15) where
  add_fragment-new :
      (i : ℕ) (c : Collection)
      → has i c.fragments ≡ false
      → add_fragment i (i == n) (part i) c ≡ (
        added n part some_parts few_parts i c,
        (c.fragments_received + 1) % 2 ^ 16 == counted i (i == n) c.num_fragments,
      )
  unfolding add_fragment
  add_fragment-new i c h = rw (has-none i c.fragments h, add_fragment) refl

  -- A fragment that is there changes nothing.
  counted-old :
      (i : ℕ) (c : Collection)
      → Collecting n part c
      → has i c.fragments ≡ true
      → i ≤ n
      → counted i (i == n) c.num_fragments ≡ c.num_fragments
  unfolding counted
  counted-old i c w h b = elim w.number [
    | inl q ↦ ground arith
    | inr (below, le) ↦
        let (v, l) = has-All (λ e. e.0 < c.num_fragments) i c.fragments h below in ground arith
  ]

  add_fragment-old :
      (i : ℕ) (c : Collection)
      → Collecting n part c
      → has i c.fragments ≡ true
      → i ≤ n
      → add_fragment i (i == n) (part i) c ≡ (c, false)
  unfolding add_fragment
  add_fragment-old i c w h b =
      let (v, e) = has-some i c.fragments h in
      rw (e, add_fragment)
        (ap (λ k. (record c { num_fragments = k }, false)) (counted-old i c w h b))

  -- Whether a new fragment completes the message.
  complete-covers :
      (i : ℕ) (c : Collection)
      → Collecting n part c
      → has i c.fragments ≡ false
      → 1 ≤ i
      → i ≤ n
      → ((c.fragments_received + 1) % 2 ^ 16 == counted i (i == n) c.num_fragments) ≡ true
      → length (put i (part i) c.fragments) ≡ n
  complete-covers i c w h a b e =
      let l : length (put i (part i) c.fragments) ≡ suc (length c.fragments) =
        length-put i (part i) c.fragments h in
      full-length n part some_parts few_parts (added n part some_parts few_parts i c)
        (added-Collecting n part some_parts few_parts i c w h a b) (omega (arith, l))
        ((==_iff _ _).0 e)

  covers-length :
      (c : Collection)
      → Collecting n part c
      → length c.fragments ≡ n
      → (order : List ℕ) → covers n c.fragments order ≡ true
  covers-length c w e order =
      covers-all n c.fragments order
        (λ k a b. has-Within part 1 (suc n) k c.fragments w.sorted w.entries (omega (arith, e)) a b)

  -- The first fragments that leave none out complete the message, and it is its parts in order.
  pub gather-covers :
      (order : List ℕ) (c : Collection)
      → Collecting n part c
      → covers n c.fragments [] ≡ false
      → InRange n order
      → gather n part order c ≡ (if covers n c.fragments order then some (span part 1 n) else none)
  unfolding gather
  gather-covers [] c w open' r = rw open' refl
  gather-covers (i ∷ order) c w open' r = elim (Bool-cases (has i c.fragments)) [
    | inl h ↦
        rw (add_fragment-old i c w h r.0.1, gather)
          (gather-covers order c w open' r.1
            ∙ ap (λ b. if b then some (span part 1 n) else none)
                (covers-has n i c.fragments order h))
    | inr h ↦
        let c' : Collection = added n part some_parts few_parts i c in
        let w' : Collecting n part c' =
          added-Collecting n part some_parts few_parts i c w h r.0.0 r.0.1 in
        elim (Bool-cases
          ((c.fragments_received + 1) % 2 ^ 16 == counted i (i == n) c.num_fragments)) [
            | inl e ↦
                let l : length c'.fragments ≡ n = complete-covers i c w h r.0.0 r.0.1 e in
                let q : covers n c.fragments (i ∷ order) ≡ true =
                  sym (covers-put n i (part i) c.fragments order) ∙ covers-length c' w' l order in
                rw (add_fragment-new i c h, gather, e, q)
                  (ap some (
                    blob_of-span part 1 (suc n) c'.fragments w'.sorted w'.entries (omega (arith, l))
                    ∙ ap (span part 1) l))
            | inr e ↦
                let q : covers n c'.fragments [] ≡ false =
                  elim (Bool-cases (covers n c'.fragments [])) [
                    | inl t ↦
                        absurd (ground (arith, e, length-full n part some_parts few_parts c' w' t))
                    | inr t ↦ t
                  ] in
                rw (add_fragment-new i c h, gather, e)
                  (gather-covers order c' w' q r.1
                    ∙ ap (λ b. if b then some (span part 1 n) else none)
                        (covers-put n i (part i) c.fragments order))
          ]
  ]
