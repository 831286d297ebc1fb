-- ===== src/Pool/Steps.antt =====
-- Reasoning about the steps of the pool that are enabled.
use majmun.Base.{ℕ, ◌≡◌, refl, inl, inr, Option, none, some, List, [], ◌∷◌}
use majmun.Base.Tests.{Option-cases}
use majmun.Base.Lists.{nth}
use majmun.Pool.{
  Segmenter, Phase, idle, failed, finished, acquiring, joining, waiting, reading, Pool,
}
use majmun.Pool.Actions.{
  on_idle, on_acquiring, on_joining, on_waiting, on_reading, with_segmenter, Action, step,
  run_actions,
}

module _ (P : Pool → Type 0) where
  -- The property holds after a step, if the step is enabled.
  abbrev pub After : Option Pool → Type 0
  After none = Unit {0}
  After (some p) = P p

  pub on_idle-After : (ph : Phase) (r : Option Pool) → After r → After (on_idle ph r)
  on_idle-After idle r h = h
  on_idle-After failed r h = tt
  on_idle-After finished r h = tt
  on_idle-After (acquiring i) r h = tt
  on_idle-After (joining i) r h = tt
  on_idle-After (waiting i) r h = tt
  on_idle-After (reading i) r h = tt

  pub on_acquiring-After :
      (ph : Phase) (f : ℕ → Option Pool)
      → ((i : ℕ) → ph ≡ acquiring i → After (f i))
      → After (on_acquiring ph f)
  on_acquiring-After idle f h = tt
  on_acquiring-After failed f h = tt
  on_acquiring-After finished f h = tt
  on_acquiring-After (acquiring i) f h = h i refl
  on_acquiring-After (joining i) f h = tt
  on_acquiring-After (waiting i) f h = tt
  on_acquiring-After (reading i) f h = tt

  pub on_joining-After :
      (ph : Phase) (f : ℕ → Option Pool)
      → ((i : ℕ) → ph ≡ joining i → After (f i))
      → After (on_joining ph f)
  on_joining-After idle f h = tt
  on_joining-After failed f h = tt
  on_joining-After finished f h = tt
  on_joining-After (acquiring i) f h = tt
  on_joining-After (joining i) f h = h i refl
  on_joining-After (waiting i) f h = tt
  on_joining-After (reading i) f h = tt

  pub on_waiting-After :
      (ph : Phase) (f : ℕ → Option Pool)
      → ((i : ℕ) → ph ≡ waiting i → After (f i))
      → After (on_waiting ph f)
  on_waiting-After idle f h = tt
  on_waiting-After failed f h = tt
  on_waiting-After finished f h = tt
  on_waiting-After (acquiring i) f h = tt
  on_waiting-After (joining i) f h = tt
  on_waiting-After (waiting i) f h = h i refl
  on_waiting-After (reading i) f h = tt

  pub on_reading-After :
      (ph : Phase) (f : ℕ → Option Pool)
      → ((i : ℕ) → ph ≡ reading i → After (f i))
      → After (on_reading ph f)
  on_reading-After idle f h = tt
  on_reading-After failed f h = tt
  on_reading-After finished f h = tt
  on_reading-After (acquiring i) f h = tt
  on_reading-After (joining i) f h = tt
  on_reading-After (waiting i) f h = tt
  on_reading-After (reading i) f h = h i refl

  pub with_segmenter-After :
      (i : ℕ) (p : Pool) (f : Segmenter → Option Pool)
      → ((s : Segmenter) → nth i p.made ≡ some s → After (f s))
      → After (with_segmenter i p f)
  with_segmenter-After i p f h = elim (Option-cases (nth i p.made)) [
    | inl e ↦ rw (e, After) tt
    | inr (s, e) ↦ rw (e, After) (h s e)
  ]

  -- A property that every step keeps holds after every run.
  pub run_actions-After :
      ((a : Action) (p : Pool) → P p → After (step a p))
      → (as' : List Action) (p : Pool) → P p
      → After (run_actions as' p)
  unfolding run_actions
  run_actions-After h [] p k = k
  run_actions-After h (a ∷ as') p k = elim (Option-cases (step a p)) [
    | inl e ↦ rw (e, run_actions) tt
    | inr (p', e) ↦
        let kept : P p' = rw e at (h a p k) in rw (e, run_actions) (run_actions-After h as' p' kept)
  ]
