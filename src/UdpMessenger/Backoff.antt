-- ===== src/UdpMessenger/Backoff.antt =====
-- The delays stay between the bounds.
use abacuscm.Prelude.{
  ℕ, ◌*◌, ◌%◌, ◌^◌, ◌≤◌, ◌<◌, ◌≡◌, sym, ◌∙◌, subst, inl, inr, some, arith, Bool-cases, Option-cases,
  nat_order, bytes_order, same, find, put, find-put,
}
use abacuscm.UdpMessenger.{
  Messenger, clamp_min, clamp_max, clamp_init, initialise, get_backoff, down_backoff,
}

-- The bounds are in order and can be doubled, and every delay is between them.
pub record IsBounded (s : Messenger) : Type 0 where
  pub small : s.max_delay < 2 ^ 31
  pub init_ge : s.min_delay ≤ s.init_delay
  pub init_le : s.init_delay ≤ s.max_delay
  pub delays :
      (server d : ℕ) → find server s.backoffmap ≡ some d → (s.min_delay ≤ d) × (d ≤ s.max_delay)

some_inj : (a b : ℕ) → some a ≡ some b → a ≡ b
some_inj a b h = cc

-- One delay is replaced by another one between the bounds.
put-IsBounded :
    (s : Messenger) (server d : ℕ)
    → IsBounded s
    → s.min_delay ≤ d
    → d ≤ s.max_delay
    → IsBounded (record s { backoffmap = put server d s.backoffmap })
put-IsBounded s server d b lo hi = record {
  small = b.small;
  init_ge = b.init_ge;
  init_le = b.init_le;
  delays = λ j e h. elim (Bool-cases (same server j)) [
    | inl q ↦
        let r : d ≡ e = some_inj d e (sym (find-put server j d s.backoffmap ∙ rw q) ∙ h) in
        (subst (λ x. s.min_delay ≤ x) r lo, subst (λ x. x ≤ s.max_delay) r hi)
    | inr q ↦ b.delays j e (sym (find-put server j d s.backoffmap ∙ rw q) ∙ h)
  ];
}

-- `getBackoff` returns a delay between the bounds and keeps all delays there, when the greatest
-- delay is less than 2 ^ 31.
pub get_backoff-IsBounded :
    (server : ℕ) (s : Messenger)
    → IsBounded s
    → ((s.min_delay ≤ (get_backoff server s).0) × ((get_backoff server s).0 ≤ s.max_delay))
      × IsBounded (get_backoff server s).1
unfolding get_backoff
get_backoff-IsBounded server s b = elim (Option-cases (find server s.backoffmap)) [
  | inl e ↦
      rw (e, get_backoff)
        ((b.init_ge, b.init_le), put-IsBounded s server s.init_delay b b.init_ge b.init_le)
  | inr (d, e) ↦
      let k = b.delays server d e in
      let m : d * 2 % 2 ^ 32 ≡ d * 2 = omega (arith, b.small, k.1) in
      rw (e, get_backoff)
        (k, put-IsBounded s server _ b (ground (arith, b.init_ge, b.init_le, k.0)) (ground arith))
]

-- `downBackoff` keeps all delays between the bounds, when the greatest delay is less than 2 ^ 31.
pub down_backoff-IsBounded :
    (server : ℕ) (s : Messenger) → IsBounded s → IsBounded (down_backoff server s)
unfolding down_backoff
down_backoff-IsBounded server s b = elim (Option-cases (find server s.backoffmap)) [
  | inl e ↦ rw (e, down_backoff) b
  | inr (d, e) ↦
      let k = b.delays server d e in
      rw (e, down_backoff)
        (put-IsBounded s server _ b (ground arith) (ground (arith, b.init_ge, b.init_le, k.1)))
]

-- The settings that `initialise` leaves have their bounds in order, when the greatest delay and the
-- thousandfold of the least one are less than 2 ^ 31.
pub initialise-IsBounded :
    (init least most : ℕ)
    → 1000 * clamp_min least < 2 ^ 31
    → most < 2 ^ 31
    → IsBounded (initialise init least most)
unfolding initialise clamp_min clamp_max clamp_init find
initialise-IsBounded init least most h k = record {
  small = ground arith;
  init_ge = ground arith;
  init_le = ground arith;
  delays = λ server d e. absurd (ground arith);
}
