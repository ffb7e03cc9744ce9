-- ===== src/Standings.antt =====
-- src/support_standings.C and include/standingssupportmodule.h: the score of a team, as contestants
-- see it (before the blinds go down) and as it is in the end. The database's answers about a
-- submission are a `Row`. Broadcasting the standings is left out.
pub mod Views
use abacuscm.Prelude.{
  ℕ, zero, suc, ◌+◌, ◌-◌, ◌*◌, ◌/◌, ◌%◌, ◌^◌, ◌≤◌, ◌<◌, String, ◌≡◌, refl, sym, ap, ◌∙◌, subst, ◌≢◌,
  ◌↔◌, ◌⊎◌, inl, inr, Bool, true, false, not, ◌&&◌, ◌||◌, Option, none, some, List, [], ◌∷◌, ◌++◌,
  map, append-nil, append_assoc, arith, ltb, leb, ◌==◌, if◌then◌else◌, ltb→lt, lt→ltb, leb→le,
  ==_iff, ==_refl, ==_ne, Bool-cases, Option-cases, length, take, drop, length-append,
  take-length_append, take-length, take-append_ge, take-append_le, drop-length_append,
  take-append_drop, length-take, length-drop, All, All-append, list-cases, Bytes, codes, eq_bytes,
  lt_bytes, Lacks, eq_bytes_refl, eq_bytes→eq, eq_bytes_iff, lt_bytes-asymm, lt_bytes_irrefl,
  lt_bytes_trans, lt_bytes-connex, StrictOrder, nat_order, bytes_order, same, find, put, erase,
  same_refl, same→eq, find-put, find-erase, Below, IsSorted, put-Below, put-IsSorted,
  erase-IsSorted,
}
use abacuscm.Prelude.Int.{ℤ, pos, ◌+ℤ◌, ◌-ℤ◌}
use abacuscm.Timer.{Timer, contest_time, is_blinded}

-- `RunResult` of include/misc.h.
abbrev pub correct_result : ℕ
correct_result = 0

abbrev pub compile_failed : ℕ
compile_failed = 4

abbrev pub judge : ℕ
judge = 5

abbrev pub other : ℕ
other = 7

pub record SubData : Type 0 where
  pub time : ℕ
  pub correct : Bool
  pub final_only : Bool

-- What the database and the user module say of a submission; `state` is `none` where it has none.
pub record Row : Type 0 where
  pub user_id : ℕ
  pub group_id : ℕ
  pub prob_id : ℕ
  pub submitted : ℕ
  pub state : Option ℕ

-- `SubDataLessThan`
unfoldable pub sub_data_less_than : SubData → SubData → Bool
sub_data_less_than s1 s2 =
    if (s1.final_only && not s2.final_only) || (not s1.final_only && s2.final_only)
    then s2.final_only
    else ltb s1.time s2.time

-- `std::stable_sort` with that order.
unfoldable pub insert : SubData → List SubData → List SubData
insert s [] = s ∷ []
insert s (x ∷ xs) = if sub_data_less_than x s then x ∷ insert s xs else s ∷ x ∷ xs

unfoldable pub stable_sort : List SubData → List SubData
stable_sort [] = []
stable_sort (s ∷ ss) = insert s (stable_sort ss)

abbrev pub ProblemData : Type 0
ProblemData = List (ℕ × List (ℕ × List SubData))

-- `problemdata[user_id][prob_id].push_back(tmp)`
unfoldable pub push_back : ℕ → ℕ → SubData → ProblemData → ProblemData
push_back user prob d m =
    let probs : List (ℕ × List SubData) = elim (find user m) [ none ↦ [] | some p ↦ p ] in
    let subs : List SubData = elim (find prob probs) [ none ↦ [] | some l ↦ l ] in
    put user (put prob (subs ++ d ∷ []) probs) m

-- One round of the loop over the submissions.
unfoldable pub add_row : Timer → ℕ → Row → ProblemData → ProblemData
add_row timer now r m = elim r.state [
  | none ↦ m
  | some state ↦
      if (state == compile_failed) || ((state == judge) || (state == other))
      then m
      else let t : ℕ = contest_time timer now r.group_id r.submitted in
        push_back r.user_id r.prob_id
          (record { time = t; correct = state == correct_result; final_only = is_blinded timer t })
          m
]

-- What the loops over a problem's submissions carry: `tries`, `correct`, `correct_time` and `s`.
pub record Progress : Type 0 where
  pub tries : ℕ
  pub solved : Bool
  pub correct_time : ℕ
  pub rest : List SubData

-- The `while` loop; `w` is true for the final standings.
unfoldable pub count_tries : Bool → ℕ → Bool → ℕ → List SubData → Progress
count_tries w n solved t [] = record { tries = n; solved = solved; correct_time = t; rest = [] }
count_tries w n solved t (s ∷ ss) =
    let next : Progress = count_tries w (suc n) s.correct s.time ss in
    if not solved && (w || not s.final_only)
    then next
    else record { tries = n; solved = solved; correct_time = t; rest = s ∷ ss }

-- `StandingsData`; the tries of a problem that is not solved are negative.
pub record TeamData : Type 0 where
  pub in_standings : Bool
  pub time : ℤ
  pub points : ℤ
  pub tries : List (ℕ × ℤ)

-- The `if(tries)` behind the loop.
unfoldable pub award : ℕ → Progress → TeamData → TeamData
award prob p d =
    if p.tries == 0
    then d
    else if p.solved
    then record d {
      time = (d.time +ℤ pos ((p.tries - 1) * 20 * 60)) +ℤ pos p.correct_time;
      points = d.points +ℤ pos 1;
      tries = put prob (pos p.tries) d.tries;
    }
    else record d { tries = put prob (pos 0 -ℤ pos p.tries) d.tries }

-- Both rounds of the loop over `w`.
unfoldable pub contestant_progress : List SubData → Progress
contestant_progress subs = count_tries false 0 false 0 (stable_sort subs)

unfoldable pub final_progress : List SubData → Progress
final_progress subs =
    let p : Progress = contestant_progress subs in
    count_tries true p.tries p.solved p.correct_time p.rest

unfoldable pub score_problem : ℕ × List SubData → TeamData × TeamData → TeamData × TeamData
score_problem (prob, subs) (d0, d1) =
    (award prob (contestant_progress subs) d0, award prob (final_progress subs) d1)

unfoldable pub score_team : List (ℕ × List SubData) → TeamData × TeamData → TeamData × TeamData
score_team [] d = d
score_team (p ∷ ps) d = score_team ps (score_problem p d)

-- The data that a team starts with; `bonus` is its points and its seconds, if it has any.
unfoldable pub start_data : Bool → Option (ℤ × ℤ) → TeamData
start_data in_standings bonus = elim bonus [
  | none ↦ record { in_standings = in_standings; time = pos 0; points = pos 0; tries = [] }
  | some b ↦ record { in_standings = in_standings; time = pos 0 -ℤ b.1; points = b.0; tries = [] }
]
