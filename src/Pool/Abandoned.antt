-- ===== src/Pool/Abandoned.antt =====
-- A segmenter that nothing will start stays so in every step of the pool.
use majmun.Base.{ℕ, ◌≡◌, sym, ◌∙◌, ap, ◌≢◌, inl, inr, Option, some, [], ◌∷◌, ◌++◌}
use majmun.Base.Tests.{Bool-cases}
use majmun.Base.Lists.{length, nth}
use majmun.Base.Text.{Text}
use majmun.Base.Maps.{insert}
use majmun.Pool.{
  not_ready, unstarted, running, draining, released, Segmenter, acquiring, waiting, Pool,
  new_segmenter, set_run, set_phase, at_segmenter, release,
}
use majmun.Pool.Updates.{Keeps, Same}
use majmun.Base.Tests.{◌==◌}
use majmun.Pool.Permits.{nth-append_old, nth_end, same_index, nth-modify_at_other}
use majmun.Pool.Balance.{moved-Keeps}
use majmun.Pool.Kept.{IsKept}

-- The run of segmenter `i` has not begun, and no client is left that would begin it.
pub record IsAbandoned (i : ℕ) (p : Pool) : Type 0 where
  pub unstarted_at :
      (s : Segmenter) × (nth i p.made ≡ some s) × (s.run ≡ unstarted) × (s.ready ≡ not_ready)
  pub no_creator : (c : ℕ) → p.phase c ≢ acquiring i

module _ (i : ℕ) where
  Keeps-IsAbandoned : (p p' : Pool) → Keeps p p' → IsAbandoned i p → IsAbandoned i p'
  Keeps-IsAbandoned p p' k h =
      let (s, at_i, u, r) = h.unstarted_at in
      let (s', at_i', u', r') = k.unstarted_same i s at_i u in
      record {
        unstarted_at = (s', at_i', u', r' ∙ r);
        no_creator = λ c e. h.no_creator c (k.no_new c i e);
      }

  Same-IsAbandoned : (p p' : Pool) → Same p p' → IsAbandoned i p → IsAbandoned i p'
  Same-IsAbandoned p p' s h = Keeps-IsAbandoned p p' s.keeps h

  created-IsAbandoned :
      (c : ℕ) (key : Text) (semaphore : Option ℕ) (p : Pool)
      → IsAbandoned i p
      → IsAbandoned i (
          set_phase c (acquiring (length p.made)) (record p {
            segmenters = insert key (length p.made) p.segmenters;
            made = p.made ++ new_segmenter key semaphore ∷ [];
          }))
  unfolding set_phase
  created-IsAbandoned c key semaphore p h =
      let (s, at_i, u, r) = h.unstarted_at in
      record {
        unstarted_at = (s, nth-append_old i p.made _ s at_i, u, r);
        no_creator = λ d k. elim (Bool-cases (c == d)) [
          | inl hit ↦
              let last : length p.made ≡ i = same_index (length p.made) i (rw hit at k) in
              absurd (cc (sym (nth_end p.made) ∙ rw (← last) at at_i))
          | inr miss ↦ h.no_creator d (rw miss at k)
        ];
      }

  begun-IsAbandoned :
      (c j : ℕ) (s : Segmenter) (free : ℕ → ℕ) (p : Pool)
      → IsAbandoned i p
      → p.phase c ≡ acquiring j
      → IsAbandoned i
          (at_segmenter j (set_run running) (set_phase c (waiting j) (record p { free = free })))
  unfolding at_segmenter set_phase
  begun-IsAbandoned c j s free p h creating =
      let (t, at_i, u, r) = h.unstarted_at in
      let other : j ≢ i = λ k. h.no_creator c (creating ∙ ap acquiring k) in
      record {
        unstarted_at = (t, nth-modify_at_other j i (set_run running) p.made other ∙ at_i, u, r);
        no_creator = λ d k. elim (Bool-cases (c == d)) [
          | inl hit ↦ cc (rw hit at k)
          | inr miss ↦ h.no_creator d (rw miss at k)
        ];
      }

  released-IsAbandoned :
      (j : ℕ) (s : Segmenter) (p : Pool)
      → IsAbandoned i p
      → nth j p.made ≡ some s
      → s.run ≡ draining
      → IsAbandoned i
          (at_segmenter j (set_run released) (record p { free = release s.semaphore p.free }))
  unfolding at_segmenter
  released-IsAbandoned j s p h at_j e =
      let keeps = moved-Keeps (λ q. 0) j released s p at_j (λ z. cc (sym e ∙ z)) in
      Keeps-IsAbandoned p _
        (record { unstarted_same = keeps.unstarted_same; no_new = keeps.no_new }) h

  pub IsAbandoned-IsKept : IsKept (IsAbandoned i)
  IsAbandoned-IsKept = record {
    same = Same-IsAbandoned;
    created = created-IsAbandoned;
    begun = λ c j s free p h creating at_j got. begun-IsAbandoned c j s free p h creating;
    released = released-IsAbandoned;
  }
