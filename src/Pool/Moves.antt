-- ===== src/Pool/Moves.antt =====
-- The steps of runSegmenter that move no permit, at a segmenter whose run has begun.
use majmun.Base.{ℕ, ◌≡◌, ◌≢◌, refl, sym, ◌∙◌, ap, ◌⊎◌, inl, inr, Bool, some}
use majmun.Base.Lists.{nth}
use majmun.Pool.{
  Ready, not_ready, started, start_failed, RunState, unstarted, running, draining, released, ended,
  Segmenter, Pool, set_ready, set_run, at_segmenter,
}
use majmun.Pool.Actions.{ready_of, report_ready, end_start, remove_ended}
use majmun.Pool.Permits.{some_same, held-keeps, holds_permit, nth-modify_at}
use majmun.Pool.Updates.{Same, Same-trans, at_segmenter-Keeps, remove-Same}
use majmun.Pool.Balance.{moved-Same}
use majmun.Pool.Steps.{After}

pub set_ready_keeps :
    (r : Ready) (s : Segmenter)
    → ((set_ready r s).run ≡ s.run) × ((set_ready r s).semaphore ≡ s.semaphore)
unfolding set_ready
set_ready_keeps r s = elim (kind s.ready) [
  | inl e ↦ rw (e, set_ready) (refl, refl)
  | inr (inl e) ↦ rw (e, set_ready) (refl, refl)
  | inr (inr e) ↦ rw (e, set_ready) (refl, refl)
]
  where
    kind : (x : Ready) → (x ≡ not_ready) ⊎ (x ≡ started) ⊎ (x ≡ start_failed)
    kind not_ready = inl refl
    kind started = inr (inl refl)
    kind start_failed = inr (inr refl)

pub ready-Same :
    (i : ℕ) (r : Ready) (s : Segmenter) (p : Pool)
    → nth i p.made ≡ some s
    → s.run ≢ unstarted
    → Same p (at_segmenter i (set_ready r) p)
unfolding at_segmenter
ready-Same i r s p at_i ne = record {
  keeps =
      at_segmenter-Keeps i (set_ready r) p
        (λ t at_t u. let same : s ≡ t = some_same s t (sym at_i ∙ at_t) in absurd (ne (rw same u)));
  held_same = λ q.
      held-keeps q i (set_ready r) p.made
        (λ t. rw ((set_ready_keeps r t).0, (set_ready_keeps r t).1) refl);
  free_same = refl;
}

pub report_ready-Same :
    (P : Pool → Type 0) (i : ℕ) (ok : Bool) (s : Segmenter) (p : Pool)
    → nth i p.made ≡ some s
    → ((p' : Pool) → Same p p' → P p')
    → After P (report_ready i ok s.run p)
unfolding report_ready
report_ready-Same P i ok s p at_i h = go s.run refl
  where
    go : (r : RunState) → s.run ≡ r → After P (report_ready i ok r p)
    go unstarted e = tt
    go running e = h _ (ready-Same i (ready_of ok) s p at_i (λ k. cc (sym e ∙ k)))
    go draining e = h _ (ready-Same i (ready_of ok) s p at_i (λ k. cc (sym e ∙ k)))
    go released e = h _ (ready-Same i (ready_of ok) s p at_i (λ k. cc (sym e ∙ k)))
    go ended e = h _ (ready-Same i (ready_of ok) s p at_i (λ k. cc (sym e ∙ k)))

pub end_start-Same :
    (P : Pool → Type 0) (i : ℕ) (ok : Bool) (s : Segmenter) (p : Pool)
    → nth i p.made ≡ some s
    → ((p' : Pool) → Same p p' → P p')
    → After P (end_start i ok s.run p)
unfolding end_start at_segmenter
end_start-Same P i ok s p at_i h = go s.run refl
  where
    go : (r : RunState) → s.run ≡ r → After P (end_start i ok r p)
    go unstarted e = tt
    go draining e = tt
    go released e = tt
    go ended e = tt
    go running e =
        let r = ready_of ok in
        let p' = at_segmenter i (set_ready r) p in
        let run' : (set_ready r s).run ≡ running = (set_ready_keeps r s).0 ∙ e in
        h _ (
          Same-trans p p' _ (ready-Same i r s p at_i (λ k. cc (sym e ∙ k))) (
            moved-Same (λ q. 0) i draining (set_ready r s) p'
              (nth-modify_at i (set_ready r) p.made s at_i) (λ k. cc (sym run' ∙ k))
              (ap holds_permit (sym run'))))

pub remove_ended-Same :
    (P : Pool → Type 0) (i : ℕ) (s : Segmenter) (p : Pool)
    → nth i p.made ≡ some s
    → ((p' : Pool) → Same p p' → P p')
    → After P (remove_ended i s s.run p)
unfolding remove_ended
remove_ended-Same P i s p at_i h = go s.run refl
  where
    go : (r : RunState) → s.run ≡ r → After P (remove_ended i s r p)
    go unstarted e = tt
    go running e = tt
    go draining e = tt
    go ended e = tt
    go released e = h _ (
        Same-trans p (at_segmenter i (set_run ended) p) _
          (moved-Same (λ q. 0) i ended s p at_i (λ k. cc (sym e ∙ k)) (ap holds_permit (sym e)))
          (remove-Same s.stream_key (at_segmenter i (set_run ended) p)))
