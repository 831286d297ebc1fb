-- ===== src/Pool/Safety.antt =====
-- No run of the pool exceeds the permits of a semaphore.
use majmun.Base.{ℕ, ◌+◌, ◌≡◌, some, List, [], arith}
use majmun.Pool.{Pool, idle}
use majmun.Pool.Actions.{Action, run_actions}
use majmun.Pool.Permits.{held}
use majmun.Pool.Balance.{Inv, Same-Inv, created-Inv, started-Inv, released-Inv}
use majmun.Pool.Kept.{IsKept, run_actions-Kept}

Inv-IsKept : (capacity : ℕ → ℕ) → IsKept (Inv capacity)
Inv-IsKept capacity = record {
  same = Same-Inv capacity;
  created = created-Inv capacity;
  begun = started-Inv capacity;
  released = released-Inv capacity;
}

-- The pool before the first request, with semaphores of the given sizes.
abbrev pub new_pool : (ℕ → ℕ) → Pool
new_pool capacity = record { segmenters = []; made = []; free = capacity; phase = λ c. idle }

pub run_actions-Inv :
    (capacity : ℕ → ℕ) (as' : List Action) (p : Pool)
    → run_actions as' (new_pool capacity) ≡ some p
    → Inv capacity p
run_actions-Inv capacity as' p e =
    let inv : Inv capacity (new_pool capacity) = record {
      fresh = λ c i k. absurd (cc k);
      alone = λ c d i k l. absurd (cc k);
      balance = λ r. omega arith;
    } in
    run_actions-Kept (Inv capacity) (Inv-IsKept capacity) as' (new_pool capacity) p e inv

-- In every run of the pool from its beginning, however the steps of clients, processes and goroutines
-- follow one another, the permits of each semaphore that running segmenters hold and those that are
-- free make up its size: never do more segmenters of a subscription run than it allows, and no permit
-- is lost or given back twice.
pub run_actions_balance :
    (capacity : ℕ → ℕ) (as' : List Action) (p : Pool) (q : ℕ)
    → run_actions as' (new_pool capacity) ≡ some p
    → held q p.made + p.free q ≡ capacity q
run_actions_balance capacity as' p q e = (run_actions-Inv capacity as' p e).balance q
