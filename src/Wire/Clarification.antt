-- ===== src/Wire/Clarification.antt =====
-- `ClarificationMessage` of src/act_clarify.C: its bytes.
use abacuscm.Prelude.{
  ℕ, ◌+◌, ◌-◌, ◌^◌, ◌<◌, ◌≡◌, sym, ◌∙◌, subst, ◌≢◌, inl, inr, false, Option, none, some, arith, ltb,
  leb, if◌then◌else◌, Bool-cases, length, drop, Bytes, Lacks, nat_order, bytes_order,
}
use abacuscm.Wire.{Load, fault, refused, loaded, put_word, with_word, put_string, load_string}
use abacuscm.Wire.Words.{with_word-put_word, with_word_ok}
use abacuscm.Wire.Strings.{load_string-put_string, load_string-fault, length-put_string}

pub record ClarificationMessage : Type 0 where
  pub request : ℕ
  pub clarification_request_id : ℕ
  pub clarification_id : ℕ
  pub user_id : ℕ
  pub prob_id : ℕ
  pub time : ℕ
  pub server_id : ℕ
  pub text : Bytes

-- `storageRequired`. The source adds in `uint32_t`, which makes a difference for texts of four gigabytes
-- on.
unfoldable pub storage_required : ClarificationMessage → ℕ
storage_required m = 28 + length m.text + 1

-- `store` on a buffer that holds `old`: `none` where it writes past its end.
unfoldable pub store : ClarificationMessage → Bytes → Option Bytes
store m old =
    if ltb (length old) (storage_required m)
    then none
    else some (
        put_word m.request (
          put_word m.clarification_request_id (
            put_word m.clarification_id (
              put_word m.user_id (
                put_word m.prob_id
                  (put_word m.time (put_word m.server_id (put_string m.text (drop 28 old)))))))))

unfoldable pub load : Bytes → Load ClarificationMessage
load buf =
    if leb (length buf) 28
    then refused
    else with_word buf (λ request p1. with_word p1 (λ crid p2. with_word p2 (λ cid p3.
      with_word p3 (λ uid p4. with_word p4 (λ pid p5. with_word p5 (λ t p6. with_word p6 (λ srv p7.
        load_string 28 (length buf - 28) p7 (λ text. record {
          request = request;
          clarification_request_id = crid;
          clarification_id = cid;
          user_id = uid;
          prob_id = pid;
          time = t;
          server_id = srv;
          text = text;
        }))))))))

-- A clarification message is loaded or refused, whatever the bytes are: no read leaves the buffer.
pub load_safe : (buf : Bytes) → load buf ≢ fault
unfolding load
load_safe buf = elim (Bool-cases (leb (length buf) 28)) [
  | inl h ↦ λ e. ground arith
  | inr h ↦
      rw (h, load)
        (with_word_ok buf _ (ground arith) (λ a p1 l1. with_word_ok p1 _ (ground arith) (λ b p2 l2.
          with_word_ok p2 _ (ground arith) (λ c p3 l3. with_word_ok p3 _ (ground arith) (λ d p4 l4.
            with_word_ok p4 _ (ground arith) (λ e p5 l5.
              with_word_ok p5 _ (ground arith) (λ f p6 l6.
                with_word_ok p6 _ (ground arith)
                  (λ g p7 l7. load_string-fault 28 (length buf - 28) p7 _ (ground arith)))))))))
]

-- Every number fits its 32 bits, and the text has no NUL.
pub record IsPlain (m : ClarificationMessage) : Type 0 where
  pub small_request : m.request < 2 ^ 32
  pub small_clarification_request_id : m.clarification_request_id < 2 ^ 32
  pub small_clarification_id : m.clarification_id < 2 ^ 32
  pub small_user_id : m.user_id < 2 ^ 32
  pub small_prob_id : m.prob_id < 2 ^ 32
  pub small_time : m.time < 2 ^ 32
  pub small_server_id : m.server_id < 2 ^ 32
  pub plain_text : Lacks 0 m.text

-- The bytes that `store` writes.
abbrev stored : ClarificationMessage → Bytes → Bytes
stored m old = put_word m.request (
    put_word m.clarification_request_id (
      put_word m.clarification_id (
        put_word m.user_id (
          put_word m.prob_id
            (put_word m.time (put_word m.server_id (put_string m.text (drop 28 old))))))))

length-stored :
    (m : ClarificationMessage) (old : Bytes)
    → length (stored m old) ≡ 28 + length (put_string m.text (drop 28 old))
unfolding put_word
length-stored m old = omega arith

some_inj : (a b : Bytes) → some a ≡ some b → a ≡ b
some_inj a b h = cc

store-stored :
    (m : ClarificationMessage) (old buf : Bytes) → store m old ≡ some buf → stored m old ≡ buf
unfolding store
store-stored m old buf e = elim (Bool-cases (ltb (length old) (storage_required m))) [
  | inl h ↦ absurd (ground arith)
  | inr h ↦ some_inj (stored m old) buf (sym (rw (h, store)) ∙ e)
]

-- A clarification message whose numbers fit their 32 bits and whose text has no NUL is read back
-- from the bytes that `store` wrote into any buffer that is large enough, and the count is that of
-- `storageRequired`.
pub load-store_clarification :
    (m : ClarificationMessage) (old buf : Bytes)
    → IsPlain m
    → store m old ≡ some buf
    → load buf ≡ loaded m (storage_required m)
unfolding load storage_required
load-store_clarification m old buf w e =
    let s : Bytes = put_string m.text (drop 28 old) in
    let more : length m.text < length s = length-put_string m.text (drop 28 old) w.plain_text in
    let q : leb (28 + length s) 28 ≡ false = ground arith in
    subst (λ b. load b ≡ loaded m (28 + length m.text + 1)) (store-stored m old buf e)
      (rw (length-stored m old, load, q)
        (with_word-put_word m.request _ _ w.small_request
          ∙ with_word-put_word m.clarification_request_id _ _ w.small_clarification_request_id
          ∙ with_word-put_word m.clarification_id _ _ w.small_clarification_id
          ∙ with_word-put_word m.user_id _ _ w.small_user_id
          ∙ with_word-put_word m.prob_id _ _ w.small_prob_id
          ∙ with_word-put_word m.time _ _ w.small_time
          ∙ with_word-put_word m.server_id _ _ w.small_server_id
          ∙ load_string-put_string 28 (28 + length s - 28) m.text (drop 28 old) _ w.plain_text
              (omega (arith, more))))
