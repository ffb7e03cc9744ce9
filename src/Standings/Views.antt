-- ===== src/Standings/Views.antt =====
-- What the two views of the standings show.
use abacuscm.Prelude.{
  ℕ, suc, ◌≡◌, refl, sym, ap, ◌∙◌, inl, inr, Bool, true, false, List, [], ◌∷◌, arith, if◌then◌else◌,
  Bool-cases, nat_order, bytes_order,
}
use abacuscm.Standings.{
  TeamData, count_tries, contestant_progress, Progress, final_progress, award, stable_sort, SubData,
  sub_data_less_than, insert,
}

-- The submissions that contestants may know of.
unfoldable pub visible : List SubData → List SubData
visible [] = []
visible (s ∷ ss) = if s.final_only then visible ss else s ∷ visible ss

-- No hidden submission is in front of a visible one.
abbrev IsVisibleFirst : List SubData → Type 0
IsVisibleFirst [] = Unit
IsVisibleFirst (s ∷ ss) = (s.final_only ≡ true → visible ss ≡ []) × IsVisibleFirst ss

visible-insert :
    (s : SubData) (xs : List SubData)
    → IsVisibleFirst xs
    → visible (insert s xs) ≡ (if s.final_only then visible xs else insert s (visible xs))
unfolding visible insert sub_data_less_than
visible-insert s [] h = refl
visible-insert s (x ∷ xs) h = ground (arith, visible-insert s xs h.1, h.0)

insert-IsVisibleFirst :
    (s : SubData) (xs : List SubData) → IsVisibleFirst xs → IsVisibleFirst (insert s xs)
unfolding insert sub_data_less_than visible
insert-IsVisibleFirst s [] h = (λ _. refl, tt)
insert-IsVisibleFirst s (x ∷ xs) h =
    ground (arith, insert-IsVisibleFirst s xs h.1, visible-insert s xs h.1, h.0)

stable_sort-IsVisibleFirst : (ss : List SubData) → IsVisibleFirst (stable_sort ss)
unfolding stable_sort
stable_sort-IsVisibleFirst [] = tt
stable_sort-IsVisibleFirst (s ∷ ss) =
    insert-IsVisibleFirst s (stable_sort ss) (stable_sort-IsVisibleFirst ss)

visible-stable_sort : (ss : List SubData) → visible (stable_sort ss) ≡ stable_sort (visible ss)
unfolding visible stable_sort
visible-stable_sort [] = refl
visible-stable_sort (s ∷ ss) = ground (
  arith,
  visible-insert s (stable_sort ss) (stable_sort-IsVisibleFirst ss),
  visible-stable_sort ss,
)

-- The numbers of a loop's result, without the submissions that are left.
abbrev numbers : Progress → Progress
numbers p = record p { rest = [] }

-- Nothing counts behind the first correct submission.
count_tries_solved :
    (w : Bool) (n t : ℕ) (ss : List SubData)
    → numbers (count_tries w n true t ss)
      ≡ record { tries = n; solved = true; correct_time = t; rest = [] }
unfolding count_tries
count_tries_solved w n t [] = refl
count_tries_solved w n t (s ∷ ss) = refl

count_tries-visible :
    (n t : ℕ) (b : Bool) (ss : List SubData)
    → IsVisibleFirst ss
    → numbers (count_tries false n b t ss) ≡ numbers (count_tries false n b t (visible ss))
unfolding count_tries visible
count_tries-visible n t b [] h = refl
count_tries-visible n t true (s ∷ ss) h =
    count_tries_solved false n t (s ∷ ss) ∙ sym (count_tries_solved false n t (visible (s ∷ ss)))
count_tries-visible n t false (s ∷ ss) h = elim (Bool-cases s.final_only) [
  | inl e ↦ rw (e, h.0 e) refl
  | inr e ↦ rw e (count_tries-visible (suc n) s.time s.correct ss h.1)
]

count_tries_resumed :
    (n t : ℕ) (b : Bool) (ss : List SubData)
    → count_tries true
        (count_tries false n b t ss).tries
        (count_tries false n b t ss).solved
        (count_tries false n b t ss).correct_time
        (count_tries false n b t ss).rest
      ≡ count_tries true n b t ss
unfolding count_tries
count_tries_resumed n t b [] = refl
count_tries_resumed n t true (s ∷ ss) = refl
count_tries_resumed n t false (s ∷ ss) = elim (Bool-cases s.final_only) [
  | inl e ↦ rw e refl
  | inr e ↦ rw e (count_tries_resumed (suc n) s.time s.correct ss)
]

award-numbers : (prob : ℕ) (p : Progress) (d : TeamData) → award prob (numbers p) d ≡ award prob p d
unfolding award
award-numbers prob p d = refl

-- What contestants see of a problem does not depend on the submissions that are for the final
-- standings only: the score is the one without them.
pub contestant_progress-visible :
    (prob : ℕ) (subs : List SubData) (d : TeamData)
    → award prob (contestant_progress subs) d ≡ award prob (contestant_progress (visible subs)) d
unfolding contestant_progress
contestant_progress-visible prob subs d =
    sym (award-numbers prob (count_tries false 0 false 0 (stable_sort subs)) d)
    ∙ ap (λ p. award prob p d)
        (count_tries-visible 0 0 false (stable_sort subs) (stable_sort-IsVisibleFirst subs))
    ∙ award-numbers prob (count_tries false 0 false 0 (visible (stable_sort subs))) d
    ∙ ap (λ l. award prob (count_tries false 0 false 0 l) d) (visible-stable_sort subs)

-- The final standings of a problem, which go on where the contestants' view stops, are those of one
-- pass over all its submissions in their order.
pub final_progress-count_tries :
    (subs : List SubData) → final_progress subs ≡ count_tries true 0 false 0 (stable_sort subs)
unfolding final_progress contestant_progress
final_progress-count_tries subs = count_tries_resumed 0 0 false (stable_sort subs)
