-- ===== src/Permissions.antt =====
-- src/permissions.C, include/permissions.h, src/permissionmap.C, include/permissionmap.h and the user
-- masks of include/misc.h: what a user of some type may do. A `Permission` is its number, and
-- PERMISSION_INVALID, which is -1, has a constructor of its own. A read of a permission set outside
-- its range is `none`.
pub mod Granted
pub mod Names
use abacuscm.Prelude.{
  ℕ, zero, suc, ◌+◌, ◌-◌, ◌*◌, ◌/◌, ◌%◌, ◌^◌, ◌≤◌, ◌<◌, String, ◌≡◌, refl, sym, ap, ◌∙◌, subst, ◌≢◌,
  ◌↔◌, ◌⊎◌, inl, inr, Bool, true, false, not, ◌&&◌, ◌||◌, Option, none, some, List, [], ◌∷◌, ◌++◌,
  map, append-nil, append_assoc, arith, ltb, leb, ◌==◌, if◌then◌else◌, ltb→lt, lt→ltb, leb→le,
  ==_iff, ==_refl, ==_ne, Bool-cases, Option-cases, length, take, drop, length-append,
  take-length_append, take-length, take-append_ge, take-append_le, drop-length_append,
  take-append_drop, length-take, length-drop, All, All-append, list-cases, Bytes, codes, eq_bytes,
  lt_bytes, Lacks, eq_bytes_refl, eq_bytes→eq, eq_bytes_iff, lt_bytes-asymm, lt_bytes_irrefl,
  lt_bytes_trans, lt_bytes-connex, StrictOrder, nat_order, bytes_order, same, find, put, erase,
  same_refl, same→eq, find-put, find-erase, Below, IsSorted, put-Below, put-IsSorted,
  erase-IsSorted,
}

pub data Permission : Type 0 where
  invalid : Permission
  permission : ℕ → Permission

abbrev pub permission_count : ℕ
permission_count = 24

abbrev pub permission_names : List Bytes
permission_names =
    codes "auth"
    ∷ codes "submit"
    ∷ codes "clarification_request"
    ∷ codes "clarification_reply"
    ∷ codes "change_password"
    ∷ codes "in_standings"
    ∷ codes "see_standings"
    ∷ codes "see_all_standings"
    ∷ codes "see_final_standings"
    ∷ codes "see_all_clarification_requests"
    ∷ codes "see_all_clarifications"
    ∷ codes "see_all_submissions"
    ∷ codes "see_all_problems"
    ∷ codes "see_problem_details"
    ∷ codes "see_submission_details"
    ∷ codes "see_user_id"
    ∷ codes "mark"
    ∷ codes "judge"
    ∷ codes "judge_override"
    ∷ codes "set_bonus"
    ∷ codes "user_admin"
    ∷ codes "problem_admin"
    ∷ codes "server_admin"
    ∷ codes "start_stop"
    ∷ []

-- `xs[i]`, which is `none` out of range.
unfoldable pub get_elem? {ℓ} : {A : Type ℓ} → List A → ℕ → Option A
get_elem? [] i = none
get_elem? (x ∷ xs) zero = some x
get_elem? (x ∷ xs) (suc i) = get_elem? xs i

-- `none` where the `assert` of `getPermissionName` fails.
unfoldable pub get_permission_name : Permission → Option Bytes
get_permission_name invalid = none
get_permission_name (permission i) = get_elem? permission_names i

-- The loop of `getPermissionValue`, from the number of the first name on.
unfoldable pub find_name : Bytes → ℕ → List Bytes → Permission
find_name name i [] = invalid
find_name name i (n ∷ ns) = if eq_bytes name n then permission i else find_name name (suc i) ns

unfoldable pub get_permission_value : Bytes → Permission
get_permission_value name = find_name name 0 permission_names

abbrev pub PermissionSet : Type 0
PermissionSet = List Bool

abbrev pub replicate : ℕ → Bool → PermissionSet
replicate zero b = []
replicate (suc n) b = b ∷ replicate n b

-- The constructor of `PermissionSet`: nothing is granted.
abbrev pub empty_set : PermissionSet
empty_set = replicate permission_count false

-- `ps[_base]`, without a check of the range.
unfoldable pub index : PermissionSet → Permission → Option Bool
index ps invalid = none
index ps (permission i) = get_elem? ps i

-- `_type` with the members that it makes meaningful.
pub data PermissionTest : Type 0 where
  none_test : PermissionTest
  any_test : PermissionTest
  base_test : Permission → PermissionTest
  or_test : PermissionTest → PermissionTest → PermissionTest
  and_test : PermissionTest → PermissionTest → PermissionTest
  not_test : PermissionTest → PermissionTest

-- `||` and `&&` of C++ on results that may fault: the right one counts where the left does not
-- decide.
unfoldable pub or_else : Option Bool → Option Bool → Option Bool
or_else none r = none
or_else (some true) r = some true
or_else (some false) r = r

unfoldable pub and_then : Option Bool → Option Bool → Option Bool
and_then none r = none
and_then (some true) r = r
and_then (some false) r = some false

unfoldable pub matches : PermissionTest → PermissionSet → Option Bool
matches none_test ps = some false
matches any_test ps = some true
matches (base_test p) ps = index ps p
matches (or_test a b) ps = or_else (matches a ps) (matches b ps)
matches (and_test a b) ps = and_then (matches a ps) (matches b ps)
matches (not_test a) ps = elim (matches a ps) [ none ↦ none | some b ↦ some (not b) ]

-- `_map[user_type][perm] = true` on the set: a write out of range is left out, and none occurs.
unfoldable pub grant : ℕ → PermissionSet → PermissionSet
grant i [] = []
grant zero (b ∷ bs) = true ∷ bs
grant (suc i) (b ∷ bs) = b ∷ grant i bs

abbrev pub PermissionMap : Type 0
PermissionMap = List (ℕ × PermissionSet)

-- `map::operator[]` makes an empty set where the type has none.
unfoldable pub set_of : ℕ → PermissionMap → PermissionSet
set_of t m = elim (find t m) [ none ↦ empty_set | some ps ↦ ps ]

-- The loop of `allow`. `mask` is a `uint32_t`, so 32 rounds shift it to 0.
unfoldable pub allow_loop : ℕ → ℕ → ℕ → ℕ → PermissionMap → PermissionMap
allow_loop zero perm t mask m = m
allow_loop (suc fuel) perm t mask m =
    let m' : PermissionMap = if mask % 2 == 1 then put t (grant perm (set_of t m)) m else m in
    let rest : PermissionMap = allow_loop fuel perm (suc t) (mask / 2) m' in
    if mask == 0 then m else rest

unfoldable pub allow : ℕ → ℕ → PermissionMap → PermissionMap
allow perm mask m = allow_loop 32 perm 0 mask m

-- The user types of include/misc.h, and their masks, which are disjoint, so `|` adds them.
abbrev pub user_type_none : ℕ
user_type_none = 0

abbrev pub user_type_admin : ℕ
user_type_admin = 1

abbrev pub user_type_judge : ℕ
user_type_judge = 2

abbrev pub user_type_contestant : ℕ
user_type_contestant = 3

abbrev pub user_type_marker : ℕ
user_type_marker = 4

abbrev pub user_type_observer : ℕ
user_type_observer = 5

abbrev pub user_type_proctor : ℕ
user_type_proctor = 6

abbrev pub user_mask : ℕ → ℕ
user_mask t = 2 ^ t

abbrev pub user_mask_all : ℕ
user_mask_all = 2 + 4 + 8 + 16 + 32 + 64

abbrev pub user_mask_nomarker : ℕ
user_mask_nomarker = 2 + 4 + 8 + 32 + 64

abbrev pub user_mask_manager : ℕ
user_mask_manager = 4 + 2

-- The calls of `allow` in the constructor, in its order.
abbrev pub grants : List (ℕ × ℕ)
grants =
    (0, user_mask_all)
    ∷ (1, 8 + 32)
    ∷ (2, user_mask_nomarker)
    ∷ (3, user_mask_manager)
    ∷ (4, user_mask_nomarker)
    ∷ (5, 8)
    ∷ (6, user_mask_nomarker + 1)
    ∷ (7, 32 + 64 + user_mask_manager)
    ∷ (8, user_mask_manager + 64)
    ∷ (9, user_mask_manager)
    ∷ (10, user_mask_manager)
    ∷ (11, user_mask_manager)
    ∷ (12, user_mask_manager)
    ∷ (13, user_mask_manager + 16)
    ∷ (14, user_mask_manager)
    ∷ (15, 2)
    ∷ (16, 16 + 2)
    ∷ (17, user_mask_manager)
    ∷ (18, 2)
    ∷ (19, user_mask_manager)
    ∷ (20, 2)
    ∷ (22, 2)
    ∷ (21, 2)
    ∷ (23, 2)
    ∷ []

unfoldable pub allow_all : List (ℕ × ℕ) → PermissionMap → PermissionMap
allow_all [] m = m
allow_all ((perm, mask) ∷ gs) m = allow_all gs (allow perm mask m)

unfoldable pub permission_map : PermissionMap
permission_map = allow_all grants []

unfoldable pub get_permissions : ℕ → PermissionSet
get_permissions t = elim (find t permission_map) [ none ↦ empty_set | some ps ↦ ps ]
