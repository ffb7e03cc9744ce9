-- ===== src/Actions/Marks.antt =====
-- Who may place a mark.
use abacuscm.Prelude.{
  ℕ, zero, suc, ◌≡◌, refl, sym, ap, ◌∙◌, subst, ◌⊎◌, inl, inr, true, false, none, some, [], ◌∷◌,
  ◌++◌, arith, ◌==◌, ==_iff, Bool-cases, Option-cases, length, codes, nat_order, bytes_order, find,
}
use abacuscm.Decimal.{from_string}
use abacuscm.MessageBlock.{MessageBlock, error, header, has_attribute, bytes_of}
use abacuscm.Markers.{has_issued}
use abacuscm.Marking.{MarkMessage, add_file}
use abacuscm.Actions.{Environment, World, Answers, mark_content, granted, uint32_max}
use abacuscm.Actions.Queue.{trigger_message-queue}
use abacuscm.Actions.PlaceMark.{
  permission_mark, permission_judge, permission_judge_override, judge_result, judge_legal,
  mark_legal, parse_description, slice, file_name, collect_files, new_mark, preempt_with,
  finish_mark, place_mark,
}

-- What allows a client to mark a submission.
pub data Authorised (env : Environment) (cc sid : ℕ) (w : World) : Type 0 where
  -- It may override every mark.
  by_override :
      granted (env.who cc).permissions permission_judge_override ≡ true → Authorised env cc sid w
  -- It is a marker, and this is the submission that it was issued.
  by_marker :
      granted (env.who cc).permissions permission_mark ≡ true
      → find cc w.markers.issued ≡ some sid
      → Authorised env cc sid w
  -- It is a judge, the submission was left to a judge, and no judge has marked it.
  by_judge :
      (db : Answers) (utype : ℕ)
      → granted (env.who cc).permissions permission_judge ≡ true
      → env.db ≡ some db
      → db.submission_state sid ≡ some (judge_result, utype)
      → granted (env.permissions_of utype) permission_judge ≡ false
      → Authorised env cc sid w

-- The gap in the check: a marker that was issued nothing counts as one that was issued 0.
pub record IsUnissued (env : Environment) (cc sid : ℕ) (w : World) : Type 0 where
  pub may_mark : granted (env.who cc).permissions permission_mark ≡ true
  pub has_none : find cc w.markers.issued ≡ none
  pub is_zero : sid ≡ 0

judge_legal-Authorised :
    (env : Environment) (cc sid : ℕ) (w : World)
    → granted (env.who cc).permissions permission_judge ≡ true
    → judge_legal env sid ≡ none
    → Authorised env cc sid w
unfolding judge_legal
judge_legal-Authorised env cc sid w g h = elim (Option-cases env.db) [
  | inl e ↦ absurd (ground (arith, e))
  | inr (db, e) ↦ elim (Option-cases (db.submission_state sid)) [
    | inl n ↦ absurd (ground (arith, e, n))
    | inr ((resinfo, utype), n) ↦
        elim (Bool-cases (granted (env.permissions_of utype) permission_judge)) [
          | inl t ↦ absurd (ground (arith, e, n, t))
          | inr f ↦ elim (Bool-cases (resinfo == judge_result)) [
            | inr q ↦ absurd (ground (arith, e, n, f, q))
            | inl q ↦
                by_judge db utype g e
                  (n ∙ ap (λ r. some (r, utype)) ((==_iff resinfo judge_result).0 q)) f
          ]
        ]
  ]
]

marker_issued :
    (env : Environment) (cc sid : ℕ) (w : World)
    → granted (env.who cc).permissions permission_mark ≡ true
    → has_issued w.markers cc ≡ sid
    → Authorised env cc sid w ⊎ IsUnissued env cc sid w
unfolding has_issued
marker_issued env cc sid w m h = elim (Option-cases (find cc w.markers.issued)) [
  | inl n ↦ inr (record { may_mark = m; has_none = n; is_zero = ground (arith, n, h) })
  | inr (sd, n) ↦ inl (by_marker m (n ∙ ap some (ground (arith, n, h))))
]

mark_legal-Authorised :
    (env : Environment) (cc sid : ℕ) (w : World)
    → mark_legal env cc sid w ≡ none
    → Authorised env cc sid w ⊎ IsUnissued env cc sid w
unfolding mark_legal
mark_legal-Authorised env cc sid w h =
    let ps = (env.who cc).permissions in
    elim (Bool-cases (granted ps permission_judge_override)) [
      | inl o ↦ inl (by_override o)
      | inr o ↦ elim (Bool-cases (granted ps permission_mark)) [
        | inl m ↦ elim (Bool-cases (has_issued w.markers cc == sid)) [
          | inl q ↦ marker_issued env cc sid w m ((==_iff (has_issued w.markers cc) sid).0 q)
          | inr q ↦ absurd (ground (arith, o, m, q))
        ]
        | inr m ↦ elim (Bool-cases (granted ps permission_judge)) [
          | inl j ↦ inl (judge_legal-Authorised env cc sid w j (ground (arith, o, m, j)))
          | inr j ↦ absurd (ground (arith, o, m, j))
        ]
      ]
    ]

collect_files-fields :
    (fuel c : ℕ) (mb : MessageBlock) (m n : MarkMessage)
    → collect_files fuel c mb m ≡ some n
    → (n.submission_id ≡ m.submission_id) × (n.marker ≡ m.marker)
unfolding collect_files add_file
collect_files-fields zero c mb m n h = cc
collect_files-fields (suc fuel) c mb m n h = elim (Bool-cases (has_attribute mb (file_name c))) [
  | inr q ↦
      let e : m ≡ n = ground (arith, q) in
      (
        ap (λ (x : MarkMessage). x.submission_id) (sym e),
        ap (λ (x : MarkMessage). x.marker) (sym e),
      )
  | inl q ↦ elim (Option-cases (parse_description (header mb (file_name c)))) [
    | inl d ↦ collect_files-fields fuel (suc c) mb m n (ground (arith, q, d))
    | inr ((start, size, name), d) ↦ elim (Option-cases (slice (bytes_of mb.content) start size)) [
      | inl s ↦ absurd (ground (arith, q, d, s))
      | inr (bytes, s) ↦
          collect_files-fields fuel (suc c) mb (add_file name bytes m) n (ground (arith, q, d, s))
    ]
  ]
]

some_inj {ℓ} : {A : Type ℓ} (x y : A) → some x ≡ some y → x ≡ y
some_inj x y h = cc

-- The queue is as it was, or it has one message more, and this is the mark of the client on the
-- submission that the request names, which it is authorised to place, or 0 where it is a marker that
-- was issued nothing.
abbrev pub Placed : Environment → ℕ → MessageBlock → World → MessageBlock × World → Type 0
Placed env cc mb w r =
    (r.1.queue ≡ w.queue)
    ⊎ ((sid : ℕ) × (m : MarkMessage) × (from_string uint32_max (header mb (codes "submission_id"))
          ≡ some sid)
        × (Authorised env cc sid w ⊎ IsUnissued env cc sid w)
        × (m.submission_id ≡ sid)
        × (m.marker ≡ (env.who cc).user_id)
        × (r.1.queue ≡ w.queue ++ mark_content m ∷ []))

finish_mark-Placed :
    (env : Environment) (cc sid : ℕ) (mb : MessageBlock) (w : World) (m : MarkMessage)
    → from_string uint32_max (header mb (codes "submission_id")) ≡ some sid
    → Authorised env cc sid w ⊎ IsUnissued env cc sid w
    → m.submission_id ≡ sid
    → m.marker ≡ (env.who cc).user_id
    → Placed env cc mb w (finish_mark env cc sid m w)
unfolding finish_mark
finish_mark-Placed env cc sid mb w m e a s k = elim (trigger_message-queue env (mark_content m) _) [
  | inl q ↦ inl q
  | inr q ↦ inr (sid, m, e, a, s, k, q)
]

-- Whatever a client sends, where `place_mark` ends with a reply it queues at most one message, and this
-- is the mark of this client on the submission that the request names: it may override marks, or it is
-- a marker and was issued this submission, or a judge to whom it was left, or a marker that was issued
-- nothing and the submission is 0.
pub place_mark-Authorised :
    (env : Environment) (cc : ℕ) (mb : MessageBlock) (w : World) (r : MessageBlock × World)
    → place_mark env cc mb w ≡ some r
    → Placed env cc mb w r
unfolding place_mark preempt_with new_mark
place_mark-Authorised env cc mb w r h =
    elim (Option-cases (from_string uint32_max (header mb (codes "submission_id")))) [
      | inl e ↦
          given (preempt_with env cc (codes "Invalid submission_id") w) (rw (e, place_mark) refl)
            (inl refl)
      | inr (sid, e) ↦ elim (Option-cases (mark_legal env cc sid w)) [
        | inr (msg, l) ↦ given (error msg, w) (rw (e, place_mark, l) refl) (inl refl)
        | inl l ↦ elim (Option-cases (from_string uint32_max (header mb (codes "result")))) [
          | inl n ↦
              given (preempt_with env cc (codes "You must specify the result") w)
                (rw (e, place_mark, l, n) refl) (inl refl)
          | inr (result, n) ↦
              elim (Option-cases (
                collect_files (suc (length mb.headers)) 0 mb
                  (new_mark env sid (env.who cc).user_id result (header mb (codes "comment"))))) [
                    | inl f ↦
                        let p : place_mark env cc mb w ≡ none = rw (e, place_mark, l, n, f) refl in
                        absurd (ground (arith, h, p))
                    | inr (m, f) ↦
                        let (s, k) =
                          collect_files-fields (suc (length mb.headers)) 0 mb
                            (new_mark env sid (env.who cc).user_id result
                              (header mb (codes "comment")))
                            m f in
                        given (finish_mark env cc sid m w) (rw (e, place_mark, l, n, f) refl) (
                          finish_mark-Placed env cc sid mb w m e
                            (mark_legal-Authorised env cc sid w l) s k)
                  ]
        ]
      ]
    ]
  where
    given :
        (x : MessageBlock × World)
        → place_mark env cc mb w ≡ some x
        → Placed env cc mb w x
        → Placed env cc mb w r
    given x p v = subst (Placed env cc mb w) (some_inj x r (sym p ∙ h)) v
