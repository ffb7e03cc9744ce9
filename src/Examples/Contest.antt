-- ===== src/Examples/Contest.antt =====
-- The theorems on the standings and on the messenger at concrete inputs, where their hypotheses hold.
use abacuscm.Prelude.{
  ◌/◌, ◌%◌, ◌≤◌, ◌≡◌, refl, true, false, none, List, [], ◌∷◌, arith, codes, nat_order, bytes_order,
  find,
}
use abacuscm.Timer.{contest_time, end_loop, contest_end_time, concerns}
use abacuscm.Timer.EndTime.{contest_time-contest_end_time}
use abacuscm.Examples.Core.{contest, ordered, actions}
use abacuscm.Standings.{
  SubData, award, contestant_progress, final_progress, count_tries, stable_sort, start_data,
}
use abacuscm.Standings.Views.{visible, contestant_progress-visible, final_progress-count_tries}
use abacuscm.UdpMessenger.{Messenger, get_backoff, assembled}
use abacuscm.UdpMessenger.Backoff.{IsBounded, get_backoff-IsBounded}
use abacuscm.UdpMessenger.Tiling.{assembled-all}

-- A wrong submission at 100, a hidden correct one at 900.
abbrev attempts : List SubData
attempts =
    record { time = 900; correct = true; final_only = true }
    ∷ record { time = 100; correct = false; final_only = false }
    ∷ []

contestant_progress-visible_example :
    award 1 (contestant_progress attempts) (start_data true none)
    ≡ award 1 (contestant_progress (visible attempts)) (start_data true none)
contestant_progress-visible_example = contestant_progress-visible 1 attempts (start_data true none)

final_progress-count_tries_example :
    final_progress attempts ≡ count_tries true 0 false 0 (stable_sort attempts)
final_progress-count_tries_example = final_progress-count_tries attempts

abbrev messenger : Messenger
messenger = record { init_delay = 500; min_delay = 100; max_delay = 100000; backoffmap = [] }

messenger-IsBounded : IsBounded messenger
unfolding find
messenger-IsBounded = record {
  small = omega arith;
  init_ge = omega arith;
  init_le = omega arith;
  delays = λ server d h. absurd (ground arith);
}

get_backoff-IsBounded_example :
    ((100 ≤ (get_backoff 3 messenger).0) × ((get_backoff 3 messenger).0 ≤ 100000))
    × IsBounded (get_backoff 3 messenger).1
get_backoff-IsBounded_example = get_backoff-IsBounded 3 messenger messenger-IsBounded

assembled-all_example : assembled (5 / 2) (5 % 2) (codes "hello") 2 ≡ codes "hello"
assembled-all_example = assembled-all (codes "hello") 2 (omega arith)

ends : contest_end_time contest 2 ≡ 120
unfolding contest_end_time end_loop concerns
ends = refl

contest_time-contest_end_time_example : contest_time contest 40 2 (contest_end_time contest 2) ≡ 100
contest_time-contest_end_time_example =
    contest_time-contest_end_time contest 40 2 ordered actions (λ e. absurd (ground (arith, ends)))
