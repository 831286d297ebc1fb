-- ===== src/Pool/Clients.antt =====
-- Every run of the pool keeps the counts of its segmenters.
use majmun.Base.{ℕ, zero, suc, ◌≤◌, ◌≡◌, refl, ap, inl, inr, Bool, Option, none, some, List, arith}
use majmun.Base.Tests.{Bool-cases, Option-cases}
use majmun.Base.Maps.{lookup}
use majmun.Pool.{
  Ready, not_ready, started, start_failed, RunState, unstarted, running, draining, released, ended,
  Segmenter, failed, finished, acquiring, waiting, reading, Pool, set_ready, set_run, set_phase,
  at_segmenter, remove, acquire, release,
}
use majmun.Pool.Actions.{
  start_segmenter, lose_semaphore, after_ready, ready_of, report_ready, end_start, release_permit,
  remove_ended, Action, get_reader, creation_fails, acquire_semaphore, give_up, join, see_ready,
  leave, close, become_ready, process_ends, release_semaphore, remove_segmenter, stop_pool, step,
  run_actions,
}
use majmun.Pool.Steps.{
  After, on_idle-After, on_acquiring-After, on_joining-After, on_waiting-After, on_reading-After,
  with_segmenter-After, run_actions-After,
}
use majmun.Pool.Counts.{share, attached, count_at}
use majmun.Pool.Known.{
  Quiet, Quiet-trans, at_segmenter-Quiet, set_run-KeepsCount, set_ready-KeepsCount, set_phase-Quiet,
  remove-Quiet, stop_all-Quiet, free-Quiet,
}
use majmun.Pool.Counted.{
  Counted, Quiet-Counted, get_or_create-Counted, join-Counted, drop_client-Counted,
}
use majmun.Pool.Safety.{new_pool}

start_segmenter-Quiet :
    (c i : ℕ) (free : Option (ℕ → ℕ)) (p : Pool)
    → p.phase c ≡ acquiring i
    → After (Quiet p) (start_segmenter c i free p)
unfolding start_segmenter
start_segmenter-Quiet c i none p e = tt
start_segmenter-Quiet c i (some free) p e =
    let q = record p { free = free } in
    let q' = set_phase c (waiting i) q in
    Quiet-trans p q _ (free-Quiet free p) (
      Quiet-trans q q' _ (set_phase-Quiet c (waiting i) q (λ j. rw e (omega arith)) (λ j k. cc k))
        (at_segmenter-Quiet i (set_run running) q' (set_run-KeepsCount running)))

lose_semaphore-Quiet : (c : ℕ) (s : Segmenter) (p : Pool) → After (Quiet p) (lose_semaphore c s p)
unfolding lose_semaphore
lose_semaphore-Quiet c s p = elim (Option-cases s.semaphore) [
  | inl e ↦ rw (e, lose_semaphore) tt
  | inr (q, e) ↦
      rw (e, lose_semaphore)
        (Quiet-trans p (remove s.stream_key p) _ (remove-Quiet s.stream_key p)
          (set_phase-Quiet c failed (remove s.stream_key p) (λ j. omega arith) (λ j k. cc k)))
]

set_ready-Quiet : (i : ℕ) (r : Ready) (p : Pool) → Quiet p (at_segmenter i (set_ready r) p)
set_ready-Quiet i r p = at_segmenter-Quiet i (set_ready r) p (set_ready-KeepsCount r)

set_run-Quiet : (i : ℕ) (r : RunState) (p : Pool) → Quiet p (at_segmenter i (set_run r) p)
set_run-Quiet i r p = at_segmenter-Quiet i (set_run r) p (set_run-KeepsCount r)

report_ready-Quiet :
    (i : ℕ) (ok : Bool) (r : RunState) (p : Pool) → After (Quiet p) (report_ready i ok r p)
unfolding report_ready
report_ready-Quiet i ok unstarted p = tt
report_ready-Quiet i ok running p = set_ready-Quiet i (ready_of ok) p
report_ready-Quiet i ok draining p = set_ready-Quiet i (ready_of ok) p
report_ready-Quiet i ok released p = set_ready-Quiet i (ready_of ok) p
report_ready-Quiet i ok ended p = set_ready-Quiet i (ready_of ok) p

end_start-Quiet :
    (i : ℕ) (ok : Bool) (r : RunState) (p : Pool) → After (Quiet p) (end_start i ok r p)
unfolding end_start
end_start-Quiet i ok unstarted p = tt
end_start-Quiet i ok running p =
    let p' = at_segmenter i (set_ready (ready_of ok)) p in
    Quiet-trans p p' _ (set_ready-Quiet i (ready_of ok) p) (set_run-Quiet i draining p')
end_start-Quiet i ok draining p = tt
end_start-Quiet i ok released p = tt
end_start-Quiet i ok ended p = tt

release_permit-Quiet :
    (i : ℕ) (s : Segmenter) (r : RunState) (p : Pool) → After (Quiet p) (release_permit i s r p)
unfolding release_permit
release_permit-Quiet i s unstarted p = tt
release_permit-Quiet i s running p = tt
release_permit-Quiet i s draining p = elim (Bool-cases s.empty_closed) [
  | inl e ↦
      let q = record p { free = release s.semaphore p.free } in
      rw (e, release_permit)
        (Quiet-trans p q _ (free-Quiet (release s.semaphore p.free) p) (set_run-Quiet i released q))
  | inr e ↦ rw (e, release_permit) tt
]
release_permit-Quiet i s released p = tt
release_permit-Quiet i s ended p = tt

remove_ended-Quiet :
    (i : ℕ) (s : Segmenter) (r : RunState) (p : Pool) → After (Quiet p) (remove_ended i s r p)
unfolding remove_ended
remove_ended-Quiet i s unstarted p = tt
remove_ended-Quiet i s running p = tt
remove_ended-Quiet i s draining p = tt
remove_ended-Quiet i s released p =
    let p' = at_segmenter i (set_run ended) p in
    Quiet-trans p p' _ (set_run-Quiet i ended p) (remove-Quiet s.stream_key p')
remove_ended-Quiet i s ended p = tt

after_ready-Counted :
    (c i : ℕ) (r : Ready) (p : Pool)
    → p.phase c ≡ waiting i
    → Counted p
    → After Counted (after_ready c i r p)
unfolding after_ready
after_ready-Counted c i not_ready p e h = tt
after_ready-Counted c i started p e h =
    Quiet-Counted p _ (set_phase-Quiet c (reading i) p (λ j. rw e (omega arith)) (λ j k. cc k)) h
after_ready-Counted c i start_failed p e h =
    drop_client-Counted c i failed p (λ j. refl) (λ j k. cc k) (λ j. ap (share j) e) h

After-Counted : (p : Pool) (r : Option Pool) → Counted p → After (Quiet p) r → After Counted r
After-Counted p none h q = tt
After-Counted p (some p') h q = Quiet-Counted p p' q h

step-Counted : (a : Action) (p : Pool) → Counted p → After Counted (step a p)
unfolding step
step-Counted (get_reader c key semaphore) p h =
    on_idle-After Counted (p.phase c) _ (get_or_create-Counted c key semaphore p h)
step-Counted (creation_fails c key) p h =
    on_idle-After Counted (p.phase c) _ (elim (Option-cases (lookup key p.segmenters)) [
      | inl e ↦
          rw (e, After)
            (Quiet-Counted p _ (set_phase-Quiet c failed p (λ j. omega arith) (λ j k. cc k)) h)
      | inr (i, e) ↦ rw (e, After) tt
    ])
step-Counted (acquire_semaphore c) p h = on_acquiring-After Counted (p.phase c) _ (λ i e.
    with_segmenter-After Counted i p _
      (λ s at_i. After-Counted p _ h (start_segmenter-Quiet c i (acquire s.semaphore p.free) p e)))
step-Counted (give_up c) p h = on_acquiring-After Counted (p.phase c) _ (λ i e.
    with_segmenter-After Counted i p _ (λ s at_i. After-Counted p _ h (lose_semaphore-Quiet c s p)))
step-Counted (join c) p h = on_joining-After Counted (p.phase c) _ (λ i e. join-Counted c i p e h)
step-Counted (see_ready c) p h =
    on_waiting-After Counted (p.phase c) _
      (λ i e. with_segmenter-After Counted i p _ (λ s at_i. after_ready-Counted c i s.ready p e h))
step-Counted (leave c) p h =
    on_waiting-After Counted (p.phase c) _
      (λ i e. drop_client-Counted c i failed p (λ j. refl) (λ j k. cc k) (λ j. ap (share j) e) h)
step-Counted (close c) p h =
    on_reading-After Counted (p.phase c) _
      (λ i e. drop_client-Counted c i finished p (λ j. refl) (λ j k. cc k) (λ j. ap (share j) e) h)
step-Counted (become_ready i ok) p h =
    with_segmenter-After Counted i p _
      (λ s at_i. After-Counted p _ h (report_ready-Quiet i ok s.run p))
step-Counted (process_ends i ok) p h =
    with_segmenter-After Counted i p _
      (λ s at_i. After-Counted p _ h (end_start-Quiet i ok s.run p))
step-Counted (release_semaphore i) p h =
    with_segmenter-After Counted i p _
      (λ s at_i. After-Counted p _ h (release_permit-Quiet i s s.run p))
step-Counted (remove_segmenter i) p h =
    with_segmenter-After Counted i p _
      (λ s at_i. After-Counted p _ h (remove_ended-Quiet i s s.run p))
step-Counted stop_pool p h = Quiet-Counted p _ (stop_all-Quiet p) h

attached-new_pool : (capacity : ℕ → ℕ) (i n : ℕ) → attached i n (new_pool capacity).phase ≡ 0
unfolding attached
attached-new_pool capacity i zero = refl
attached-new_pool capacity i (suc n) = omega (arith, attached-new_pool capacity i n)

-- In every run of the pool from its beginning, however its steps follow one another, the count of
-- each segmenter is at least the number of the clients below any bound that have it: those that
-- acquire its permit, wait for it or read from it.
pub run_actions_count :
    (capacity : ℕ → ℕ) (as' : List Action) (p : Pool) (i n : ℕ)
    → run_actions as' (new_pool capacity) ≡ some p
    → attached i n p.phase ≤ count_at i p.made
run_actions_count capacity as' p i n e =
    let begin : Counted (new_pool capacity) = record {
      enough = λ j k. omega (arith, attached-new_pool capacity j k);
      joined = λ c j k. absurd (cc k);
      mapped = tt;
    } in
    let run = run_actions-After Counted step-Counted as' (new_pool capacity) begin in
    let last : Counted p = rw e at run in last.enough i n
