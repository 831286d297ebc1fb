-- ===== src/Pool/Stuck.antt =====
-- streampool.go: a client that joined a segmenter whose creator then gives up.
use majmun.Base.{ℕ, ◌≡◌, refl, ◌∙◌, subst, inl, inr, none, some, List}
use majmun.Base.Tests.{==_iff, Option-cases}
use majmun.Base.Lists.{nth}
use majmun.Pool.{
  not_ready, unstarted, Segmenter, failed, acquiring, waiting, Pool, set_phase, remove,
}
use majmun.Pool.Actions.{
  lose_semaphore, after_ready, on_acquiring, on_waiting, with_segmenter, Action, give_up, see_ready,
  step, run_actions,
}
use majmun.Pool.Updates.{Same-trans, set_phase-Same, remove-Same}
use majmun.Pool.Balance.{Inv}
use majmun.Pool.Kept.{run_actions-Kept}
use majmun.Pool.Safety.{new_pool, run_actions-Inv}
use majmun.Pool.Abandoned.{IsAbandoned, IsAbandoned-IsKept}

failed-IsAbandoned :
    (capacity : ℕ → ℕ) (c i : ℕ) (s : Segmenter) (p : Pool)
    → Inv capacity p
    → p.phase c ≡ acquiring i
    → nth i p.made ≡ some s
    → s.run ≡ unstarted
    → s.ready ≡ not_ready
    → IsAbandoned i (set_phase c failed (remove s.stream_key p))
failed-IsAbandoned capacity c i s p inv creating at_i u m =
    let removed = remove-Same s.stream_key p in
    let marked = set_phase-Same c failed (remove s.stream_key p) (λ n k. cc k) in
    let same = Same-trans p (remove s.stream_key p) _ removed marked in
    let (t, at_i', v, r) = same.keeps.unstarted_same i s at_i u in
    record {
      unstarted_at = (t, at_i', v, r ∙ m);
      no_creator = λ d k.
          let one = inv.alone c d i creating (same.keeps.no_new d i k) in
          unfold set_phase in cc (rw ((==_iff c d).1 one) at k);
    }

-- The creator of a segmenter gives up.
given_up-IsAbandoned :
    (capacity : ℕ → ℕ) (c i : ℕ) (p p' : Pool)
    → Inv capacity p
    → p.phase c ≡ acquiring i
    → step (give_up c) p ≡ some p'
    → IsAbandoned i p'
unfolding step lose_semaphore
given_up-IsAbandoned capacity c i p p' inv creating e =
    let (s, at_i, u, m) = inv.fresh c i creating in
    let lost : lose_semaphore c s p ≡ some p' =
      rw (creating, on_acquiring, with_segmenter, at_i) at e in
    elim (Option-cases s.semaphore) [
      | inl k ↦ absurd (cc (rw (k, lose_semaphore) at lost))
      | inr (q, k) ↦
          let after : some (set_phase c failed (remove s.stream_key p)) ≡ some p' =
            rw (k, lose_semaphore) at lost in
          subst (IsAbandoned i) (cc after)
            (failed-IsAbandoned capacity c i s p inv creating at_i u m)
    ]

-- When the creator of a segmenter gives up waiting for the semaphore, in whatever run of the pool from
-- its beginning, then no client that waits for this segmenter is served in any run after it: GetReader
-- does not get past the channel `ready`, and returns only if the client itself goes away.
pub give_up_strands :
    (capacity : ℕ → ℕ) (as' bs : List Action) (c d i : ℕ) (p q r : Pool)
    → run_actions as' (new_pool capacity) ≡ some p
    → p.phase c ≡ acquiring i
    → step (give_up c) p ≡ some q
    → run_actions bs q ≡ some r
    → r.phase d ≡ waiting i
    → step (see_ready d) r ≡ none
give_up_strands capacity as' bs c d i p q r before creating gave after waits =
    let inv = run_actions-Inv capacity as' p before in
    let abandoned = given_up-IsAbandoned capacity c i p q inv creating gave in
    let still = run_actions-Kept (IsAbandoned i) (IsAbandoned-IsKept i) bs q r after abandoned in
    let (s, at_i, u, m) = still.unstarted_at in
    unfold step after_ready in rw (waits, on_waiting, with_segmenter, at_i, m) refl
