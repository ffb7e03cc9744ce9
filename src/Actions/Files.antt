-- ===== src/Actions/Files.antt =====
-- When placing a mark stays within the content of the request.
use abacuscm.Prelude.{
  ℕ, suc, ◌≡◌, refl, ◌≢◌, ◌↔◌, inl, inr, none, some, arith, Option-cases, length, codes, nat_order,
  bytes_order,
}
use abacuscm.Decimal.{from_string}
use abacuscm.MessageBlock.{MessageBlock, header}
use abacuscm.Marking.{MarkMessage}
use abacuscm.Actions.{Environment, World, uint32_max}
use abacuscm.Actions.PlaceMark.{mark_legal, collect_files, new_mark, place_mark}
use abacuscm.Actions.Beyond.{
  IsBeyond, IsInside, HasFiles, collect_files-IsBeyond, collect_files_beyond,
}

-- The request gets past the checks of `place_mark`, up to the loop over the files.
pub record IsLegal (env : Environment) (cc : ℕ) (mb : MessageBlock) (w : World) : Type 0 where
  pub sid : ℕ
  pub result : ℕ
  pub names : from_string uint32_max (header mb (codes "submission_id")) ≡ some sid
  pub legal : mark_legal env cc sid w ≡ none
  pub gives : from_string uint32_max (header mb (codes "result")) ≡ some result

place_mark-IsBeyond :
    (env : Environment) (cc : ℕ) (mb : MessageBlock) (w : World)
    → place_mark env cc mb w ≡ none
    → IsLegal env cc mb w × ((k : ℕ) × HasFiles mb 0 k × IsBeyond mb k)
unfolding place_mark
place_mark-IsBeyond env cc mb w h =
    elim (Option-cases (from_string uint32_max (header mb (codes "submission_id")))) [
      | inl e ↦ absurd (ground (arith, e, h))
      | inr (sid, e) ↦ elim (Option-cases (mark_legal env cc sid w)) [
        | inr (msg, l) ↦ absurd (ground (arith, e, l, h))
        | inl l ↦ elim (Option-cases (from_string uint32_max (header mb (codes "result")))) [
          | inl n ↦ absurd (ground (arith, e, l, n, h))
          | inr (result, n) ↦
              let m : MarkMessage =
                new_mark env sid (env.who cc).user_id result (header mb (codes "comment")) in
              elim (Option-cases (collect_files (suc (length mb.headers)) 0 mb m)) [
                | inr (r, f) ↦ absurd (ground (arith, e, l, n, f, h))
                | inl f ↦
                    let (k, le, files, b) =
                      collect_files-IsBeyond (suc (length mb.headers)) 0 mb m mb.headers
                        (λ j p. refl) (omega arith) f in
                    (
                      record { sid = sid; result = result; names = e; legal = l; gives = n },
                      (k, files, b),
                    )
              ]
        ]
      ]
    ]

-- Where every description that a request has is of no bytes or lies within its content, `place_mark`
-- ends with a reply: its loop ends, and it copies nothing from beyond the content.
pub place_mark_inside :
    (env : Environment) (cc : ℕ) (mb : MessageBlock) (w : World)
    → IsInside mb
    → place_mark env cc mb w ≢ none
place_mark_inside env cc mb w i h =
    let (legal, (k, files, b)) = place_mark-IsBeyond env cc mb w h in
    elim (i k b.start b.size b.name b.parsed) [
      | inl z ↦ absurd (ground (arith, z, b.some_bytes))
      | inr le ↦ absurd (omega (arith, le, b.beyond))
    ]

-- `place_mark` copies from beyond the content of the request exactly when the request gets past the
-- checks of the submission, the permissions and the result, and one of its files, numbered from 0
-- without a gap, is described as some bytes that do not all lie within the content.
pub place_mark_outside :
    (env : Environment) (cc : ℕ) (mb : MessageBlock) (w : World)
    → (place_mark env cc mb w ≡ none)
      ↔ (IsLegal env cc mb w × ((k : ℕ) × HasFiles mb 0 k × IsBeyond mb k))
unfolding place_mark
place_mark_outside env cc mb w = (
  place_mark-IsBeyond env cc mb w,
  λ (x : IsLegal env cc mb w × ((k : ℕ) × HasFiles mb 0 k × IsBeyond mb k)).
      let (legal, (k, files, b)) = x in
      rw
        (
          legal.names,
          place_mark,
          legal.legal,
          legal.gives,
          collect_files_beyond (suc (length mb.headers)) 0 k mb
              (new_mark env legal.sid (env.who cc).user_id legal.result
                (header mb (codes "comment")))
              (omega arith) files b,
        )
        refl,
)
