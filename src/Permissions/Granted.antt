-- ===== src/Permissions/Granted.antt =====
-- Which permission tests cannot fault, and what `allow` grants.
use abacuscm.Prelude.{
  ℕ, zero, suc, ◌+◌, ◌/◌, ◌%◌, ◌^◌, ◌<◌, ◌≡◌, refl, ap, ◌∙◌, Bool, true, false, not, ◌&&◌, ◌||◌,
  none, some, List, [], ◌∷◌, arith, ltb, ◌==◌, if◌then◌else◌, ltb→lt, length, nat_order,
  bytes_order, find, put, find-put,
}
use abacuscm.Permissions.{
  replicate, grants, permission_map, get_permissions, allow_all, allow, invalid, permission,
  permission_count, get_elem?, PermissionSet, index, PermissionTest, none_test, any_test, base_test,
  or_test, and_test, not_test, or_else, and_then, matches, grant, PermissionMap, set_of, allow_loop,
}

-- Every permission that the test names is a real one.
abbrev pub IsReal : PermissionTest → Type 0
IsReal none_test = Unit
IsReal any_test = Unit
IsReal (base_test invalid) = ⊥
IsReal (base_test (permission i)) = i < 24
IsReal (or_test a b) = IsReal a × IsReal b
IsReal (and_test a b) = IsReal a × IsReal b
IsReal (not_test a) = IsReal a

-- What a test means, as a predicate on the permissions that are granted.
unfoldable pub holds : PermissionTest → (ℕ → Bool) → Bool
holds none_test f = false
holds any_test f = true
holds (base_test invalid) f = false
holds (base_test (permission i)) f = f i
holds (or_test a b) f = holds a f || holds b f
holds (and_test a b) f = holds a f && holds b f
holds (not_test a) f = not (holds a f)

unfoldable pub has : PermissionSet → ℕ → Bool
has ps i = elim (get_elem? ps i) [ none ↦ false | some b ↦ b ]

get_elem?-has : (ps : PermissionSet) (i : ℕ) → i < length ps → get_elem? ps i ≡ some (has ps i)
unfolding get_elem? has
get_elem?-has [] i h = absurd (omega arith)
get_elem?-has (b ∷ bs) zero h = refl
get_elem?-has (b ∷ bs) (suc i) h = get_elem?-has bs i (omega arith)

-- A test that names real permissions only is decided without a read out of range, and it is the
-- Boolean combination that it was built as, on a set of the full size.
pub matches-holds :
    (t : PermissionTest) (ps : PermissionSet)
    → length ps ≡ permission_count
    → IsReal t
    → matches t ps ≡ some (holds t (has ps))
unfolding matches holds index or_else and_then
matches-holds none_test ps h r = refl
matches-holds any_test ps h r = refl
matches-holds (base_test invalid) ps h r = elim r [ ]
matches-holds (base_test (permission i)) ps h r = get_elem?-has ps i (omega arith)
matches-holds (or_test a b) ps h r =
    ground (arith, matches-holds a ps h r.0, matches-holds b ps h r.1)
matches-holds (and_test a b) ps h r =
    ground (arith, matches-holds a ps h r.0, matches-holds b ps h r.1)
matches-holds (not_test a) ps h r = ground (arith, matches-holds a ps h r)

-- Bit `i` of the mask.
unfoldable pub bit : ℕ → ℕ → Bool
bit zero mask = mask % 2 == 1
bit (suc i) mask = bit i (mask / 2)

bit_zero : (i : ℕ) → bit i 0 ≡ false
unfolding bit
bit_zero zero = refl
bit_zero (suc i) = bit_zero i

length-grant : (i : ℕ) (ps : PermissionSet) → length (grant i ps) ≡ length ps
unfolding grant
length-grant i [] = refl
length-grant zero (b ∷ bs) = refl
length-grant (suc i) (b ∷ bs) = ap suc (length-grant i bs)

grant-has :
    (i p : ℕ) (ps : PermissionSet) → p < length ps → has (grant i ps) p ≡ (has ps p || (i == p))
unfolding grant has get_elem?
grant-has i p [] h = absurd (omega arith)
grant-has zero zero (b ∷ bs) h = ground arith
grant-has zero (suc p) (b ∷ bs) h = ground arith
grant-has (suc i) zero (b ∷ bs) h = ground arith
grant-has (suc i) (suc p) (b ∷ bs) h = ground (arith, grant-has i p bs (omega arith))

set_of-put :
    (t j : ℕ) (ps : PermissionSet) (m : PermissionMap)
    → set_of j (put t ps m) ≡ (if t == j then ps else set_of j m)
unfolding set_of
set_of-put t j ps m = ground (arith, find-put t j ps m)

-- One step of the loop's mask.
halved : (fuel mask : ℕ) → mask < 2 ^ suc fuel → mask / 2 < 2 ^ fuel
halved fuel mask h = omega arith

-- The loop leaves the types before its start alone.
set_of-allow_loop_lt :
    (fuel perm t mask : ℕ) (m : PermissionMap) (j : ℕ)
    → j < t
    → set_of j (allow_loop fuel perm t mask m) ≡ set_of j m
unfolding allow_loop
set_of-allow_loop_lt zero perm t mask m j h = refl
set_of-allow_loop_lt (suc fuel) perm t mask m j h = ground (
  arith,
  set_of-allow_loop_lt fuel perm (suc t) (mask / 2)
      (if mask % 2 == 1 then put t (grant perm (set_of t m)) m else m) j (omega arith),
  set_of-put t j (grant perm (set_of t m)) m,
)

-- It grants the permission to the types of the bits that are set, counted from its start.
set_of-allow_loop :
    (fuel perm t mask : ℕ) (m : PermissionMap) (i : ℕ)
    → mask < 2 ^ fuel
    → set_of (t + i) (allow_loop fuel perm t mask m)
      ≡ (if bit i mask then grant perm (set_of (t + i) m) else set_of (t + i) m)
unfolding allow_loop bit
set_of-allow_loop zero perm t mask m i h =
    let q : mask ≡ 0 = omega arith in ground (arith, bit_zero i, ap (bit i) q)
set_of-allow_loop (suc fuel) perm t mask m zero h = ground (
  arith,
  set_of-allow_loop_lt fuel perm (suc t) (mask / 2)
      (if mask % 2 == 1 then put t (grant perm (set_of t m)) m else m) (t + 0) (omega arith),
  set_of-put t (t + 0) (grant perm (set_of t m)) m,
)
set_of-allow_loop (suc fuel) perm t mask m (suc i) h = ground (
  arith,
  bit_zero i,
  halved fuel mask h,
  set_of-allow_loop fuel perm (suc t) (mask / 2)
      (if mask % 2 == 1 then put t (grant perm (set_of t m)) m else m) i (halved fuel mask h),
  set_of-put t (t + suc i) (grant perm (set_of t m)) m,
)

abbrev pub Full : PermissionMap → Type 0
Full m = (t : ℕ) → length (set_of t m) ≡ permission_count

allow-Full : (perm mask : ℕ) (m : PermissionMap) → mask < 2 ^ 32 → Full m → Full (allow perm mask m)
unfolding allow
allow-Full perm mask m h f t =
    ground (arith, set_of-allow_loop 32 perm 0 mask m t h, length-grant perm (set_of t m), f t)

-- `allow` grants its permission to the types of its mask's bits, and changes nothing else.
allow-has :
    (perm mask : ℕ) (m : PermissionMap) (t p : ℕ)
    → mask < 2 ^ 32
    → Full m
    → p < permission_count
    → has (set_of t (allow perm mask m)) p ≡ (has (set_of t m) p || (bit t mask && (perm == p)))
unfolding allow
allow-has perm mask m t p h f k =
    let l : p < length (set_of t m) = omega (arith, f t) in
    ground (arith, set_of-allow_loop 32 perm 0 mask m t h, grant-has perm p (set_of t m) l)

-- Whether one of the grants gives the permission to the type.
unfoldable pub granted : List (ℕ × ℕ) → ℕ → ℕ → Bool
granted [] t p = false
granted ((perm, mask) ∷ gs) t p = (bit t mask && (perm == p)) || granted gs t p

unfoldable pub fits : List (ℕ × ℕ) → Bool
fits [] = true
fits ((perm, mask) ∷ gs) = ltb mask (2 ^ 32) && fits gs

allow_all-has :
    (gs : List (ℕ × ℕ)) (m : PermissionMap) (t p : ℕ)
    → fits gs ≡ true
    → Full m
    → p < permission_count
    → has (set_of t (allow_all gs m)) p ≡ (has (set_of t m) p || granted gs t p)
unfolding allow_all granted fits
allow_all-has [] m t p h f k = ground arith
allow_all-has ((perm, mask) ∷ gs) m t p h f k =
    let small : mask < 2 ^ 32 = ltb→lt mask (2 ^ 32) (ground arith) in
    ground (
      arith,
      allow-has perm mask m t p small f k,
      allow_all-has gs (allow perm mask m) t p (ground arith) (allow-Full perm mask m small f) k,
    )

replicate-has : (n p : ℕ) → has (replicate n false) p ≡ false
unfolding has get_elem?
replicate-has zero p = refl
replicate-has (suc n) zero = refl
replicate-has (suc n) (suc p) = replicate-has n p

nothing-Full : Full []
unfolding set_of find
nothing-Full t = refl

nothing_has : (t p : ℕ) → has (set_of t []) p ≡ false
unfolding set_of find
nothing_has t p = replicate-has permission_count p

-- A user type has a permission exactly if one of the constructor's calls of `allow` names the
-- permission with a mask that has the type's bit.
pub get_permissions-granted :
    (t p : ℕ) → p < permission_count → has (get_permissions t) p ≡ granted grants t p
unfolding get_permissions permission_map set_of fits
get_permissions-granted t p h =
    allow_all-has grants [] t p refl nothing-Full h
    ∙ ap (λ b. b || granted grants t p) (nothing_has t p)
