-- ===== src/Message/Codecs.antt =====
-- The codecs of the start/stop, password and submission messages obey the laws of `IsLawful`.
use abacuscm.Prelude.{
  ℕ, ◌-◌, ◌^◌, ◌<◌, ◌≡◌, refl, sym, ap, ◌∙◌, ◌≢◌, inl, inr, none, some, [], arith, Option-cases,
  length, list-cases, Bytes, Lacks, nat_order, bytes_order,
}
use abacuscm.Wire.{refused, loaded}
use abacuscm.Wire.Small.{
  MsgStartStop, store_start_stop, load_start_stop, load_start_stop-store_start_stop, PasswdMessage,
  passwd_storage_required, store_passwd, load_passwd, load_passwd-store_passwd,
}
use abacuscm.Wire.Submission.{
  SubmissionMessage, storage_required, store, load, IsEncodable, load-store,
}
use abacuscm.Message.{Codec}
use abacuscm.Message.Replication.{IsLawful}

refused≢loaded {ℓ} : {A : Type ℓ} (c : A) (n : ℕ) → refused ≢ loaded c n
refused≢loaded c n h = cc

-- A codec that reads nothing from no bytes owes a store that succeeds and the round trip.
pub lawful {ℓ} :
    {A : Type ℓ} (k : Codec A) (Valid : A → Type 0)
    → ((c : A) → Valid c → k.storage_required c < 2 ^ 32 - 1)
    → (k.load [] ≡ refused)
    → ((c : A) (old : Bytes) → Valid c → length old ≡ k.storage_required c → k.store c old ≢ none)
    → ((c : A) (old buf : Bytes)
        → Valid c
        → length old ≡ k.storage_required c
        → k.store c old ≡ some buf
        → k.load buf ≡ loaded c (k.storage_required c))
    → IsLawful k Valid
lawful k Valid small no_bytes total' read = record {
  small = small;
  stores = λ c old v h. elim (Option-cases (k.store c old)) [
    | inl q ↦ absurd (total' c old v h q)
    | inr (buf, q) ↦ (
      buf,
      q,
      elim (list-cases buf) [
        | inl e ↦ absurd (
            refused≢loaded c (k.storage_required c)
              (sym no_bytes ∙ ap k.load (sym e) ∙ read c old buf v h q))
        | inr (b, bs, e) ↦ ground (arith, ap length e)
      ],
      read c old buf v h q,
    )
  ];
}

abbrev pub start_stop_codec : Codec MsgStartStop
start_stop_codec = record {
  storage_required = λ m. 12;
  store = store_start_stop;
  load = load_start_stop;
}

abbrev pub IsStartStop : MsgStartStop → Type 0
IsStartStop m = (m.group_id < 2 ^ 32) × (m.time < 2 ^ 32) × (m.action < 2 ^ 32)

load_start_stop-nil : load_start_stop [] ≡ refused
unfolding load_start_stop
load_start_stop-nil = refl

store_start_stop_total :
    (m : MsgStartStop) (old : Bytes) → length old ≡ 12 → store_start_stop m old ≢ none
unfolding store_start_stop
store_start_stop_total m old h e = ground arith

pub start_stop_codec-IsLawful : IsLawful start_stop_codec IsStartStop
start_stop_codec-IsLawful =
    lawful start_stop_codec IsStartStop (λ c v. omega arith) load_start_stop-nil
      (λ m old v. store_start_stop_total m old)
      (λ m old buf v h. load_start_stop-store_start_stop m old buf v.0 v.1 v.2)

abbrev pub passwd_codec : Codec PasswdMessage
passwd_codec = record {
  storage_required = passwd_storage_required;
  store = store_passwd;
  load = load_passwd;
}

abbrev pub IsPasswd : PasswdMessage → Type 0
IsPasswd m = (m.user_id < 2 ^ 32) × Lacks 0 m.newpass × (passwd_storage_required m < 2 ^ 32 - 1)

load_passwd-nil : load_passwd [] ≡ refused
unfolding load_passwd
load_passwd-nil = refl

store_passwd_total :
    (m : PasswdMessage) (old : Bytes)
    → length old ≡ passwd_storage_required m
    → store_passwd m old ≢ none
unfolding store_passwd
store_passwd_total m old h e = ground arith

pub passwd_codec-IsLawful : IsLawful passwd_codec IsPasswd
passwd_codec-IsLawful =
    lawful passwd_codec IsPasswd (λ c v. v.2) load_passwd-nil (λ m old v. store_passwd_total m old)
      (λ m old buf v h. load_passwd-store_passwd m old buf v.0 v.1)

abbrev pub submission_codec : Codec SubmissionMessage
submission_codec = record { storage_required = storage_required; store = store; load = load }

abbrev pub IsSubmission : SubmissionMessage → Type 0
IsSubmission m = IsEncodable m × (storage_required m < 2 ^ 32 - 1)

load-nil : load [] ≡ refused
unfolding load
load-nil = refl

store_total :
    (m : SubmissionMessage) (old : Bytes) → length old ≡ storage_required m → store m old ≢ none
unfolding store
store_total m old h e = ground arith

pub submission_codec-IsLawful : IsLawful submission_codec IsSubmission
submission_codec-IsLawful =
    lawful submission_codec IsSubmission (λ c v. v.1) load-nil (λ m old v. store_total m old)
      (λ m old buf v h. load-store m old buf v.0)
