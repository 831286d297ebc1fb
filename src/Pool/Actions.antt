-- ===== src/Pool/Actions.antt =====
-- internal/streampool: the steps of GetReader, Close, runSegmenter and Stop.
use majmun.Base.{ℕ, Bool, Option, none, some, List, [], ◌∷◌}
use majmun.Base.Tests.{if◌then◌else◌}
use majmun.Base.Lists.{nth}
use majmun.Base.Text.{Text}
use majmun.Base.Maps.{lookup}
use majmun.Pool.{
  Ready, RunState, Segmenter, Phase, Pool, not_ready, started, start_failed, unstarted, running,
  draining, released, ended, idle, failed, finished, acquiring, joining, waiting, reading,
  add_client, remove_client, set_ready, set_run, set_phase, at_segmenter, remove, stop_all,
  get_or_create, acquire, release,
}

pub data Action : Type 0 where
  get_reader : ℕ → Text → Option ℕ → Action
  creation_fails : ℕ → Text → Action
  acquire_semaphore give_up join see_ready leave close : ℕ → Action
  become_ready process_ends : ℕ → Bool → Action
  release_semaphore remove_segmenter : ℕ → Action
  stop_pool : Action

abbrev pub on_idle : Phase → Option Pool → Option Pool
on_idle idle r = r
on_idle _ r = none

abbrev pub on_acquiring : Phase → (ℕ → Option Pool) → Option Pool
on_acquiring (acquiring i) f = f i
on_acquiring _ f = none

abbrev pub on_joining : Phase → (ℕ → Option Pool) → Option Pool
on_joining (joining i) f = f i
on_joining _ f = none

abbrev pub on_waiting : Phase → (ℕ → Option Pool) → Option Pool
on_waiting (waiting i) f = f i
on_waiting _ f = none

abbrev pub on_reading : Phase → (ℕ → Option Pool) → Option Pool
on_reading (reading i) f = f i
on_reading _ f = none

abbrev pub with_segmenter : ℕ → Pool → (Segmenter → Option Pool) → Option Pool
with_segmenter i p f = elim (nth i p.made) [ none ↦ none | some s ↦ f s ]

-- A client lets its segmenter go.
unfoldable pub drop_client : ℕ → ℕ → Phase → Pool → Pool
unfolding set_phase at_segmenter remove_client
drop_client c i ph p = at_segmenter i remove_client (set_phase c ph p)

unfoldable pub start_segmenter : ℕ → ℕ → Option (ℕ → ℕ) → Pool → Option Pool
unfolding set_phase at_segmenter set_run
start_segmenter c i none p = none
start_segmenter c i (some free) p =
    some (at_segmenter i (set_run running) (set_phase c (waiting i) (record p { free = free })))

-- AcquireSemaphore comes to its end, which it does only where there is a semaphore.
unfoldable pub lose_semaphore : ℕ → Segmenter → Pool → Option Pool
unfolding set_phase remove
lose_semaphore c s p = elim s.semaphore [
  | none ↦ none
  | some q ↦ some (set_phase c failed (remove s.stream_key p))
]

-- The part of GetReader behind the channel `ready`.
unfoldable pub after_ready : ℕ → ℕ → Ready → Pool → Option Pool
unfolding set_phase drop_client
after_ready c i not_ready p = none
after_ready c i started p = some (set_phase c (reading i) p)
after_ready c i start_failed p = some (drop_client c i failed p)

abbrev pub ready_of : Bool → Ready
ready_of ok = if ok then started else start_failed

-- waitForSegments runs once seg.start is called.
unfoldable pub report_ready : ℕ → Bool → RunState → Pool → Option Pool
unfolding at_segmenter set_ready
report_ready i ok unstarted p = none
report_ready i ok running p = some (at_segmenter i (set_ready (ready_of ok)) p)
report_ready i ok draining p = some (at_segmenter i (set_ready (ready_of ok)) p)
report_ready i ok released p = some (at_segmenter i (set_ready (ready_of ok)) p)
report_ready i ok ended p = some (at_segmenter i (set_ready (ready_of ok)) p)

unfoldable pub end_start : ℕ → Bool → RunState → Pool → Option Pool
unfolding at_segmenter set_ready set_run
end_start i ok running p =
    some (at_segmenter i (set_run draining) (at_segmenter i (set_ready (ready_of ok)) p))
end_start i ok _ p = none

-- The deferred calls of runSegmenter, once the clients are gone.
unfoldable pub release_permit : ℕ → Segmenter → RunState → Pool → Option Pool
unfolding at_segmenter set_run release
release_permit i s draining p =
    if s.empty_closed
    then some (at_segmenter i (set_run released) (record p { free = release s.semaphore p.free }))
    else none
release_permit i s _ p = none

unfoldable pub remove_ended : ℕ → Segmenter → RunState → Pool → Option Pool
unfolding at_segmenter set_run remove
remove_ended i s released p = some (remove s.stream_key (at_segmenter i (set_run ended) p))
remove_ended i s _ p = none

unfoldable pub step : Action → Pool → Option Pool
unfolding get_or_create set_phase at_segmenter acquire start_segmenter lose_semaphore add_client
    after_ready drop_client report_ready end_start release_permit remove_ended stop_all
step (get_reader c key semaphore) p = on_idle (p.phase c) (some (get_or_create c key semaphore p))
step (creation_fails c key) p =
    on_idle (p.phase c)
      (elim (lookup key p.segmenters) [ some i ↦ none | none ↦ some (set_phase c failed p) ])
step (acquire_semaphore c) p =
    on_acquiring (p.phase c)
      (λ i. with_segmenter i p (λ s. start_segmenter c i (acquire s.semaphore p.free) p))
step (give_up c) p = on_acquiring (p.phase c) (λ i. with_segmenter i p (λ s. lose_semaphore c s p))
step (join c) p =
    on_joining (p.phase c) (λ i. some (at_segmenter i add_client (set_phase c (waiting i) p)))
step (see_ready c) p =
    on_waiting (p.phase c) (λ i. with_segmenter i p (λ s. after_ready c i s.ready p))
step (leave c) p = on_waiting (p.phase c) (λ i. some (drop_client c i failed p))
step (close c) p = on_reading (p.phase c) (λ i. some (drop_client c i finished p))
step (become_ready i ok) p = with_segmenter i p (λ s. report_ready i ok s.run p)
step (process_ends i ok) p = with_segmenter i p (λ s. end_start i ok s.run p)
step (release_semaphore i) p = with_segmenter i p (λ s. release_permit i s s.run p)
step (remove_segmenter i) p = with_segmenter i p (λ s. remove_ended i s s.run p)
step stop_pool p = some (stop_all p)

-- A run of the pool.
unfoldable pub run_actions : List Action → Pool → Option Pool
unfolding step
run_actions [] p = some p
run_actions (a ∷ as') p = elim (step a p) [ none ↦ none | some p' ↦ run_actions as' p' ]
