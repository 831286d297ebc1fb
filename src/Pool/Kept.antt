-- ===== src/Pool/Kept.antt =====
-- A property of the pool that every step keeps.
use majmun.Base.{ℕ, ◌≡◌, refl, inl, inr, Option, some, List, [], ◌∷◌, ◌++◌}
use majmun.Base.Tests.{Bool-cases, Option-cases}
use majmun.Base.Lists.{length, nth}
use majmun.Base.Text.{Text}
use majmun.Base.Maps.{lookup, insert}
use majmun.Pool.{
  Ready, not_ready, started, start_failed, RunState, unstarted, running, draining, released, ended,
  Segmenter, failed, finished, acquiring, joining, waiting, reading, Pool, new_segmenter,
  add_client, set_run, set_phase, at_segmenter, remove, get_or_create, acquire, release,
}
use majmun.Pool.Actions.{
  start_segmenter, lose_semaphore, after_ready, release_permit, Action, get_reader, creation_fails,
  acquire_semaphore, give_up, join, see_ready, leave, close, become_ready, process_ends,
  release_semaphore, remove_segmenter, stop_pool, step, run_actions,
}
use majmun.Pool.Updates.{
  Same, Same-trans, at_segmenter-Same, add_client-Leaves, set_phase-Same, remove-Same,
  stop_all-Same, drop_client-Same,
}
use majmun.Pool.Steps.{
  After, on_idle-After, on_acquiring-After, on_joining-After, on_waiting-After, on_reading-After,
  with_segmenter-After, run_actions-After,
}
use majmun.Pool.Moves.{report_ready-Same, end_start-Same, remove_ended-Same}

-- What every step keeps if it is kept where no permit moves, where a segmenter is created, where its
-- creator gets a permit, and where its permit is given back.
pub record IsKept (P : Pool → Type 0) : Type 0 where
  pub same : (p p' : Pool) → Same p p' → P p → P p'
  pub created :
      (c : ℕ) (key : Text) (semaphore : Option ℕ) (p : Pool)
      → P p
      → P (
          set_phase c (acquiring (length p.made)) (record p {
            segmenters = insert key (length p.made) p.segmenters;
            made = p.made ++ new_segmenter key semaphore ∷ [];
          }))
  pub begun :
      (c i : ℕ) (s : Segmenter) (free : ℕ → ℕ) (p : Pool)
      → P p
      → p.phase c ≡ acquiring i
      → nth i p.made ≡ some s
      → acquire s.semaphore p.free ≡ some free
      → P (at_segmenter i (set_run running) (set_phase c (waiting i) (record p { free = free })))
  pub released :
      (i : ℕ) (s : Segmenter) (p : Pool)
      → P p
      → nth i p.made ≡ some s
      → s.run ≡ draining
      → P (at_segmenter i (set_run released) (record p { free = release s.semaphore p.free }))

module _ (P : Pool → Type 0) (rule : IsKept P) where
  get_or_create-Kept :
      (c : ℕ) (key : Text) (semaphore : Option ℕ) (p : Pool)
      → P p
      → P (get_or_create c key semaphore p)
  unfolding get_or_create
  get_or_create-Kept c key semaphore p inv = elim (Option-cases (lookup key p.segmenters)) [
    | inl e ↦ rw (e, get_or_create) (rule.created c key semaphore p inv)
    | inr (i, e) ↦
        rw (e, get_or_create) (rule.same p _ (set_phase-Same c (joining i) p (λ j k. cc k)) inv)
  ]

  start-After :
      (c i : ℕ) (s : Segmenter) (p : Pool)
      → P p
      → p.phase c ≡ acquiring i
      → nth i p.made ≡ some s
      → After P (start_segmenter c i (acquire s.semaphore p.free) p)
  unfolding start_segmenter
  start-After c i s p inv creating at_i = elim (Option-cases (acquire s.semaphore p.free)) [
    | inl e ↦ rw (e, start_segmenter) tt
    | inr (free, e) ↦ rw (e, start_segmenter) (rule.begun c i s free p inv creating at_i e)
  ]

  lose-After : (c : ℕ) (s : Segmenter) (p : Pool) → P p → After P (lose_semaphore c s p)
  unfolding lose_semaphore
  lose-After c s p inv = elim (Option-cases s.semaphore) [
    | inl e ↦ rw (e, lose_semaphore) tt
    | inr (q, e) ↦
        rw (e, lose_semaphore)
          (rule.same p _
            (Same-trans p (remove s.stream_key p) _ (remove-Same s.stream_key p)
              (set_phase-Same c failed (remove s.stream_key p) (λ j k. cc k)))
            inv)
  ]

  after_ready-After : (c i : ℕ) (r : Ready) (p : Pool) → P p → After P (after_ready c i r p)
  unfolding after_ready
  after_ready-After c i not_ready p inv = tt
  after_ready-After c i started p inv =
      rule.same p _ (set_phase-Same c (reading i) p (λ j k. cc k)) inv
  after_ready-After c i start_failed p inv =
      rule.same p _ (drop_client-Same c i failed p (λ j k. cc k)) inv

  release-After :
      (i : ℕ) (s : Segmenter) (p : Pool)
      → P p
      → nth i p.made ≡ some s
      → After P (release_permit i s s.run p)
  unfolding release_permit
  release-After i s p inv at_i = go s.run refl
    where
      go : (r : RunState) → s.run ≡ r → After P (release_permit i s r p)
      go unstarted e = tt
      go running e = tt
      go released e = tt
      go ended e = tt
      go draining e = elim (Bool-cases s.empty_closed) [
        | inl k ↦ rw (k, release_permit) (rule.released i s p inv at_i e)
        | inr k ↦ rw (k, release_permit) tt
      ]

  pub step-After : (a : Action) (p : Pool) → P p → After P (step a p)
  unfolding step
  step-After (get_reader c key semaphore) p inv =
      on_idle-After P (p.phase c) _ (get_or_create-Kept c key semaphore p inv)
  step-After (creation_fails c key) p inv =
      on_idle-After P (p.phase c) _ (elim (Option-cases (lookup key p.segmenters)) [
        | inl e ↦ rw (e, After) (rule.same p _ (set_phase-Same c failed p (λ j k. cc k)) inv)
        | inr (i, e) ↦ rw (e, After) tt
      ])
  step-After (acquire_semaphore c) p inv =
      on_acquiring-After P (p.phase c) _
        (λ i e. with_segmenter-After P i p _ (λ s at_i. start-After c i s p inv e at_i))
  step-After (give_up c) p inv =
      on_acquiring-After P (p.phase c) _
        (λ i e. with_segmenter-After P i p _ (λ s at_i. lose-After c s p inv))
  step-After (join c) p inv = on_joining-After P (p.phase c) _ (λ i e.
      rule.same p _
        (Same-trans p (set_phase c (waiting i) p) _ (set_phase-Same c (waiting i) p (λ j k. cc k))
          (at_segmenter-Same i add_client (set_phase c (waiting i) p) add_client-Leaves))
        inv)
  step-After (see_ready c) p inv =
      on_waiting-After P (p.phase c) _
        (λ i e. with_segmenter-After P i p _ (λ s at_i. after_ready-After c i s.ready p inv))
  step-After (leave c) p inv =
      on_waiting-After P (p.phase c) _
        (λ i e. rule.same p _ (drop_client-Same c i failed p (λ j k. cc k)) inv)
  step-After (close c) p inv =
      on_reading-After P (p.phase c) _
        (λ i e. rule.same p _ (drop_client-Same c i finished p (λ j k. cc k)) inv)
  step-After (become_ready i ok) p inv =
      with_segmenter-After P i p _
        (λ s at_i. report_ready-Same P i ok s p at_i (λ p' k. rule.same p p' k inv))
  step-After (process_ends i ok) p inv =
      with_segmenter-After P i p _
        (λ s at_i. end_start-Same P i ok s p at_i (λ p' k. rule.same p p' k inv))
  step-After (release_semaphore i) p inv =
      with_segmenter-After P i p _ (λ s at_i. release-After i s p inv at_i)
  step-After (remove_segmenter i) p inv =
      with_segmenter-After P i p _
        (λ s at_i. remove_ended-Same P i s p at_i (λ p' k. rule.same p p' k inv))
  step-After stop_pool p inv = rule.same p _ (stop_all-Same p) inv

  -- It holds after every run then.
  pub run_actions-Kept :
      (as' : List Action) (p p' : Pool) → run_actions as' p ≡ some p' → P p → P p'
  run_actions-Kept as' p p' e h = rw e at (run_actions-After P step-After as' p h)
