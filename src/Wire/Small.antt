-- ===== src/Wire/Small.antt =====
-- The messages of fixed shape: `MsgStartStop` of src/act_startstop.C, `PasswdMessage` of
-- src/act_passwd.C and `BonusMessage` of src/act_bonus.C, and their bytes.
use abacuscm.Prelude.{
  ℕ, ◌+◌, ◌^◌, ◌<◌, ◌≡◌, ◌∙◌, subst, false, Option, none, some, arith, ltb, if◌then◌else◌, length,
  drop, Bytes, Lacks, nat_order, bytes_order,
}
use abacuscm.Wire.{Load, refused, loaded, put_word, with_word, c_string, put_string}
use abacuscm.Wire.Words.{with_word-put_word, length-put_word}
use abacuscm.Wire.Strings.{c_string-put_string}

pub record MsgStartStop : Type 0 where
  pub group_id : ℕ
  pub time : ℕ
  pub action : ℕ

-- `store` on a buffer that holds `old`; `none` is `~0U`.
unfoldable pub store_start_stop : MsgStartStop → Bytes → Option Bytes
store_start_stop m old =
    if ltb (length old) 12
    then none
    else some (put_word m.group_id (put_word m.time (put_word m.action (drop 12 old))))

unfoldable pub load_start_stop : Bytes → Load MsgStartStop
load_start_stop buf =
    if ltb (length buf) 12
    then refused
    else with_word buf (λ g p1.
      with_word p1
        (λ t p2. with_word p2 (λ a p3. loaded (record { group_id = g; time = t; action = a }) 12)))

pub record PasswdMessage : Type 0 where
  pub user_id : ℕ
  pub newpass : Bytes

unfoldable pub passwd_storage_required : PasswdMessage → ℕ
passwd_storage_required m = 4 + length m.newpass + 1

unfoldable pub store_passwd : PasswdMessage → Bytes → Option Bytes
store_passwd m old =
    if ltb (length old) (passwd_storage_required m)
    then none
    else some (put_word m.user_id (put_string m.newpass (drop 4 old)))

-- `strnlen(buffer + 4, size - 4) == size - 4` says that no byte of the rest is NUL.
unfoldable pub load_passwd : Bytes → Load PasswdMessage
load_passwd buf =
    if ltb (length buf) 4
    then refused
    else with_word buf (λ uid rest. elim (c_string rest) [
      | none ↦ refused
      | some s ↦ loaded (record { user_id = uid; newpass = s }) (4 + length s + 1)
    ])

-- `_points` and `_seconds` are the bit patterns of the `int32_t`.
pub record BonusMessage : Type 0 where
  pub bonus_user_id : ℕ
  pub points : ℕ
  pub seconds : ℕ

unfoldable pub store_bonus : BonusMessage → Bytes → Option Bytes
store_bonus m old =
    if ltb (length old) 12
    then none
    else some (put_word m.bonus_user_id (put_word m.points (put_word m.seconds (drop 12 old))))

unfoldable pub load_bonus : Bytes → Load BonusMessage
load_bonus buf =
    if ltb (length buf) 12
    then refused
    else with_word buf (λ u p1. with_word p1 (λ p p2.
      with_word p2 (λ s p3. loaded (record { bonus_user_id = u; points = p; seconds = s }) 12)))

length-words :
    (a b c : ℕ) (pos : Bytes) → length (put_word a (put_word b (put_word c pos))) ≡ 12 + length pos
unfolding put_word
length-words a b c pos = omega arith

some_inj : (a b : Bytes) → some a ≡ some b → a ≡ b
some_inj a b h = cc

-- A start/stop message whose three numbers fit their 32 bits is read back from the bytes that
-- `store` wrote, whatever the buffer held, with the count 12.
pub load_start_stop-store_start_stop :
    (m : MsgStartStop) (old buf : Bytes)
    → m.group_id < 2 ^ 32
    → m.time < 2 ^ 32
    → m.action < 2 ^ 32
    → store_start_stop m old ≡ some buf
    → load_start_stop buf ≡ loaded m 12
unfolding store_start_stop load_start_stop
load_start_stop-store_start_stop m old buf hg ht ha e =
    let q : put_word m.group_id (put_word m.time (put_word m.action (drop 12 old))) ≡ buf =
      ground arith in
    let l : length (put_word m.group_id (put_word m.time (put_word m.action (drop 12 old))))
        ≡ 12 + length (drop 12 old) =
      length-words m.group_id m.time m.action (drop 12 old) in
    let p : ltb (12 + length (drop 12 old)) 12 ≡ false = ground arith in
    subst (λ b. load_start_stop b ≡ loaded m 12) q
      (rw (l, load_start_stop, p)
        (with_word-put_word m.group_id _ _ hg
          ∙ with_word-put_word m.time _ _ ht
          ∙ with_word-put_word m.action _ _ ha))

-- A password message whose user fits its 32 bits and whose password has no NUL is read back from the
-- bytes that `store` wrote, whatever the buffer held, with the count of `storageRequired`.
pub load_passwd-store_passwd :
    (m : PasswdMessage) (old buf : Bytes)
    → m.user_id < 2 ^ 32
    → Lacks 0 m.newpass
    → store_passwd m old ≡ some buf
    → load_passwd buf ≡ loaded m (passwd_storage_required m)
unfolding store_passwd load_passwd passwd_storage_required
load_passwd-store_passwd m old buf hu hn e =
    let q : put_word m.user_id (put_string m.newpass (drop 4 old)) ≡ buf = ground arith in
    let p : ltb (4 + length (put_string m.newpass (drop 4 old))) 4 ≡ false = ground arith in
    subst (λ b. load_passwd b ≡ loaded m (4 + length m.newpass + 1)) q
      (rw (length-put_word m.user_id (put_string m.newpass (drop 4 old)), load_passwd, p)
        (with_word-put_word m.user_id _ _ hu ∙ rw (c_string-put_string m.newpass (drop 4 old) hn)))
