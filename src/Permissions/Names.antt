-- ===== src/Permissions/Names.antt =====
-- `getPermissionName` and `getPermissionValue`: names and values agree.
use abacuscm.Prelude.{
  ℕ, zero, suc, ◌+◌, ◌≡◌, refl, sym, ap, ◌∙◌, ◌≢◌, ◌⊎◌, inl, inr, some, List, [], ◌∷◌, arith,
  Bool-cases, Bytes, eq_bytes, eq_bytes_refl, eq_bytes→eq, nat_order, bytes_order,
}
use abacuscm.Permissions.{
  Permission, invalid, permission, permission_names, get_elem?, get_permission_name, find_name,
  get_permission_value,
}

permission_inj : (i j : ℕ) → permission i ≡ permission j → i ≡ j
permission_inj i j h = cc

-- The number that comes out is that of an equal name.
find_name-get_elem? :
    (name : Bytes) (k : ℕ) (ns : List Bytes) (i : ℕ)
    → find_name name k ns ≡ permission i
    → (j : ℕ) × (i ≡ k + j) × (get_elem? ns j ≡ some name)
unfolding find_name get_elem?
find_name-get_elem? name k [] i h = cc
find_name-get_elem? name k (n ∷ ns) i h = elim (Bool-cases (eq_bytes name n)) [
  | inl e ↦
      let q : permission k ≡ permission i = ground arith in
      (0, omega (arith, permission_inj k i q), ap some (sym (eq_bytes→eq name n e)))
  | inr e ↦
      let q : find_name name (suc k) ns ≡ permission i = ground arith in
      let (j, a, b) = find_name-get_elem? name (suc k) ns i q in (suc j, omega arith, b)
]

-- The first of several equal names is found, and there is none behind it.
find_name_complete :
    (k : ℕ) (ns : List Bytes) (name : Bytes)
    → find_name name k ns ≡ invalid
    → (j : ℕ) → get_elem? ns j ≢ some name
unfolding find_name get_elem?
find_name_complete k [] name h j e = cc
find_name_complete k (n ∷ ns) name h zero e = ground (arith, eq_bytes_refl n)
find_name_complete k (n ∷ ns) name h (suc j) e =
    find_name_complete (suc k) ns name (ground arith) j e

Permission-cases : (p : Permission) → (p ≡ invalid) ⊎ ((i : ℕ) × (p ≡ permission i))
Permission-cases invalid = inl refl
Permission-cases (permission i) = inr (i, refl)

-- `get_permission_value` finds a permission whose name is the text that it was given, and only a
-- text that names no permission gives PERMISSION_INVALID.
pub get_permission_value-name :
    (name : Bytes)
    → ((get_permission_value name ≡ invalid)
        × ((i : ℕ) → get_permission_name (permission i) ≢ some name))
      ⊎ (get_permission_name (get_permission_value name) ≡ some name)
unfolding get_permission_value get_permission_name
get_permission_value-name name = elim (Permission-cases (find_name name 0 permission_names)) [
  | inl e ↦ inl (e, find_name_complete 0 permission_names name e)
  | inr (i, e) ↦
      let (j, a, b) = find_name-get_elem? name 0 permission_names i e in
      let q : i ≡ j = omega arith in inr (rw e (ap (get_elem? permission_names) q ∙ b))
]
