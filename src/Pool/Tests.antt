-- ===== src/Pool/Tests.antt =====
-- Runs of a pool whose semaphores have one permit.
use majmun.Base.{ℕ, ◌+◌, ◌≤◌, ◌≡◌, refl, Bool, true, false, Option, none, some, List, [], ◌∷◌, ◌++◌}
use majmun.Base.Text.{Text, codes}
use majmun.Pool.{Pool}
use majmun.Pool.Actions.{
  Action, get_reader, acquire_semaphore, give_up, join, see_ready, close, become_ready,
  process_ends, release_semaphore, remove_segmenter, step, run_actions,
}
use majmun.Pool.Clients.{run_actions_count}
use majmun.Pool.Counts.{attached, count_at}
use majmun.Pool.Permits.{held}
use majmun.Pool.Safety.{new_pool, run_actions_balance}
use majmun.Pool.Stuck.{give_up_strands}

abbrev or_empty : Option Pool → Pool
or_empty none = new_pool (λ q. 1)
or_empty (some p) = p

-- A client takes the permit for one stream; a second creates a stream and must wait.
abbrev two_streams : List Action
two_streams =
    get_reader 0 (codes "a") (some 0)
    ∷ acquire_semaphore 0
    ∷ become_ready 0 true
    ∷ see_ready 0
    ∷ get_reader 1 (codes "b") (some 0)
    ∷ []

abbrev after_two : Pool
after_two = or_empty (run_actions two_streams (new_pool (λ q. 1)))

run_actions_balance_example : held 0 after_two.made + after_two.free 0 ≡ 1
unfolding run_actions step majmun.Base.Maps.lookup majmun.Base.Maps.insert majmun.Base.Maps.delete
    majmun.Base.Text.text_eq
run_actions_balance_example = run_actions_balance (λ q. 1) two_streams after_two 0 refl

-- The second stream cannot start while the first runs.
second_waits : step (acquire_semaphore 1) after_two ≡ none
unfolding run_actions step majmun.Base.Maps.lookup majmun.Base.Maps.insert majmun.Base.Maps.delete
    majmun.Base.Text.text_eq
second_waits = refl

-- A third client joined the second's segmenter.
abbrev three_clients : List Action
three_clients = two_streams ++ get_reader 2 (codes "b") (some 0) ∷ join 2 ∷ []

abbrev before : Pool
before = or_empty (run_actions three_clients (new_pool (λ q. 1)))

-- Both clients of the second segmenter count.
run_actions_count_example : attached 1 3 before.phase ≤ count_at 1 before.made
unfolding run_actions step majmun.Base.Maps.lookup majmun.Base.Maps.insert majmun.Base.Maps.delete
    majmun.Base.Text.text_eq
run_actions_count_example = run_actions_count (λ q. 1) three_clients before 1 3 refl

two_counted : attached 1 3 before.phase ≡ 2
unfolding run_actions step majmun.Base.Maps.lookup majmun.Base.Maps.insert majmun.Base.Maps.delete
    majmun.Base.Text.text_eq attached
two_counted = refl

abbrev gave_up : Pool
gave_up = or_empty (step (give_up 1) before)

-- The first stream ends, and its permit is free.
abbrev later_steps : List Action
later_steps = close 0 ∷ process_ends 0 true ∷ release_semaphore 0 ∷ remove_segmenter 0 ∷ []

abbrev at_last : Pool
at_last = or_empty (run_actions later_steps gave_up)

give_up_strands_example : step (see_ready 2) at_last ≡ none
unfolding run_actions step majmun.Base.Maps.lookup majmun.Base.Maps.insert majmun.Base.Maps.delete
    majmun.Base.Text.text_eq
give_up_strands_example =
    give_up_strands (λ q. 1) three_clients later_steps 1 2 1 before gave_up at_last refl refl refl
      refl refl
