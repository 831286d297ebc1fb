-- ===== src/Pool/Balance.antt =====
-- However clients and goroutines interleave, a semaphore's permits are never exceeded.
use majmun.Base.{
  ℕ, ◌+◌, ◌≡◌, ◌≢◌, refl, sym, ◌∙◌, ap, inl, inr, true, Option, some, [], ◌∷◌, ◌++◌, arith,
}
use majmun.Base.Tests.{◌==◌, ==_iff, Bool-cases}
use majmun.Base.Lists.{length, nth}
use majmun.Base.Text.{Text}
use majmun.Base.Maps.{insert}
use majmun.Pool.{
  not_ready, RunState, unstarted, running, draining, released, Segmenter, acquiring, waiting, Pool,
  new_segmenter, set_run, set_phase, at_segmenter, acquire, release,
}
use majmun.Pool.Permits.{
  nth-append_old, nth-append_new, nth_end, same_index, some_same, permits-idle, acquire-permits,
  release-permits, holds_permit, permits, uses, held, held-modify_at, held-append,
  nth-modify_at_other,
}
use majmun.Pool.Updates.{Keeps, Same, at_segmenter-Keeps}

-- A creator's segmenter is not started or ready, and is no other client's to start; the permits of each
-- semaphore are those held and those free.
pub record Inv (capacity : ℕ → ℕ) (p : Pool) : Type 0 where
  pub fresh :
      (c i : ℕ)
      → p.phase c ≡ acquiring i
      → (s : Segmenter) × (nth i p.made ≡ some s) × (s.run ≡ unstarted) × (s.ready ≡ not_ready)
  pub alone : (c d i : ℕ) → p.phase c ≡ acquiring i → p.phase d ≡ acquiring i → c ≡ d
  pub balance : (q : ℕ) → held q p.made + p.free q ≡ capacity q

module _ (capacity : ℕ → ℕ) where
  Keeps-Inv :
      (p p' : Pool)
      → Keeps p p'
      → ((q : ℕ) → held q p'.made + p'.free q ≡ capacity q)
      → Inv capacity p
      → Inv capacity p'
  Keeps-Inv p p' k b inv = record {
    fresh = λ c i e.
        let (s, at_i, u, m) = inv.fresh c i (k.no_new c i e) in
        let (s', at_i', u', r) = k.unstarted_same i s at_i u in (s', at_i', u', r ∙ m);
    alone = λ c d i e f. inv.alone c d i (k.no_new c i e) (k.no_new d i f);
    balance = b;
  }

  pub Same-Inv : (p p' : Pool) → Same p p' → Inv capacity p → Inv capacity p'
  Same-Inv p p' s inv =
      Keeps-Inv p p' s.keeps (λ q. rw (s.held_same q, s.free_same) (inv.balance q)) inv

  pub created-Inv :
      (c : ℕ) (key : Text) (semaphore : Option ℕ) (p : Pool)
      → Inv capacity p
      → Inv capacity (
          set_phase c (acquiring (length p.made)) (record p {
            segmenters = insert key (length p.made) p.segmenters;
            made = p.made ++ new_segmenter key semaphore ∷ [];
          }))
  unfolding set_phase new_segmenter
  created-Inv c key semaphore p inv =
      let no_other : (d : ℕ) → p.phase d ≢ acquiring (length p.made) = λ d e.
        let (s, at_end, u, m) = inv.fresh d (length p.made) e in
        absurd (cc (sym (nth_end p.made) ∙ at_end)) in
      record {
        fresh = λ d i e. elim (Bool-cases (c == d)) [
          | inl hit ↦
              let last : length p.made ≡ i = same_index (length p.made) i (rw hit at e) in
              (
                new_segmenter key semaphore,
                rw (← last) (nth-append_new p.made (new_segmenter key semaphore)),
                refl,
                refl,
              )
          | inr miss ↦
              let (s, at_i, u, m) = inv.fresh d i (rw miss at e) in
              (s, nth-append_old i p.made _ s at_i, u, m)
        ];
        alone = λ d f i e k. elim (Bool-cases (c == d)) [
          | inl hit ↦ elim (Bool-cases (c == f)) [
            | inl hit' ↦ sym ((==_iff c d).0 hit) ∙ (==_iff c f).0 hit'
            | inr miss' ↦
                let last : length p.made ≡ i = same_index (length p.made) i (rw hit at e) in
                absurd (no_other f (rw miss' at k ∙ ap acquiring (sym last)))
          ]
          | inr miss ↦ elim (Bool-cases (c == f)) [
            | inl hit' ↦
                let last : length p.made ≡ i = same_index (length p.made) i (rw hit' at k) in
                absurd (no_other d (rw miss at e ∙ ap acquiring (sym last)))
            | inr miss' ↦ inv.alone d f i (rw miss at e) (rw miss' at k)
          ]
        ];
        balance = λ q.
            ap (λ n. n + p.free q) (held-append q p.made (new_segmenter key semaphore ∷ []))
            ∙ omega (arith, permits-idle q semaphore, inv.balance q);
      }

  pub started-Inv :
      (c i : ℕ) (s : Segmenter) (free : ℕ → ℕ) (p : Pool)
      → Inv capacity p
      → p.phase c ≡ acquiring i
      → nth i p.made ≡ some s
      → acquire s.semaphore p.free ≡ some free
      → Inv capacity
          (at_segmenter i (set_run running) (set_phase c (waiting i) (record p { free = free })))
  unfolding at_segmenter set_run set_phase
  started-Inv c i s free p inv creating at_i got =
      let (s', at_i', u', m') = inv.fresh c i creating in
      let same : s' ≡ s = some_same s' s (sym at_i' ∙ at_i) in
      let u : s.run ≡ unstarted = rw (← same) u' in
      record {
        fresh = λ d j e. elim (Bool-cases (c == d)) [
          | inl hit ↦ absurd (cc (rw hit at e))
          | inr miss ↦
              let e' : p.phase d ≡ acquiring j = rw miss at e in
              let (t, at_j, v, m) = inv.fresh d j e' in
              let other_index : i ≢ j =
                λ k. absurd (ground (arith, ==_iff c d, inv.alone c d j (rw (← k) creating) e')) in
              (t, nth-modify_at_other i j (set_run running) p.made other_index ∙ at_j, v, m)
        ];
        alone = λ d f j e k. elim (Bool-cases (c == d)) [
          | inl hit ↦ absurd (cc (rw hit at e))
          | inr miss ↦ elim (Bool-cases (c == f)) [
            | inl hit' ↦ absurd (cc (rw hit' at k))
            | inr miss' ↦ inv.alone d f j (rw miss at e) (rw miss' at k)
          ]
        ];
        balance = λ q.
            let moved = held-modify_at q i (set_run running) p.made s at_i in
            let before : uses q s ≡ 0 = rw u (permits-idle q s.semaphore) in
            omega
              (arith, moved, before, acquire-permits s.semaphore p.free free q got, inv.balance q);
      }

  -- A run moves on, from one state in which it has begun to another.
  pub moved-Keeps :
      (i : ℕ) (r : RunState) (s : Segmenter) (p : Pool)
      → nth i p.made ≡ some s
      → s.run ≢ unstarted
      → Keeps p (at_segmenter i (set_run r) p)
  moved-Keeps i r s p at_i ne =
      at_segmenter-Keeps i (set_run r) p
        (λ t at_t u. let same : s ≡ t = some_same s t (sym at_i ∙ at_t) in absurd (ne (rw same u)))

  pub moved-Same :
      (i : ℕ) (r : RunState) (s : Segmenter) (p : Pool)
      → nth i p.made ≡ some s
      → s.run ≢ unstarted
      → holds_permit r ≡ holds_permit s.run
      → Same p (at_segmenter i (set_run r) p)
  unfolding at_segmenter set_run
  moved-Same i r s p at_i ne h = record {
    keeps = moved-Keeps i r s p at_i ne;
    held_same = λ q.
        let moved = held-modify_at q i (set_run r) p.made s at_i in
        let same : uses q (set_run r s) ≡ uses q s = ap (permits q s.semaphore) h in
        omega (arith, moved, same);
    free_same = refl;
  }

  pub released-Inv :
      (i : ℕ) (s : Segmenter) (p : Pool)
      → Inv capacity p
      → nth i p.made ≡ some s
      → s.run ≡ draining
      → Inv capacity
          (at_segmenter i (set_run released) (record p { free = release s.semaphore p.free }))
  unfolding at_segmenter set_run
  released-Inv i s p inv at_i u =
      let k = moved-Keeps i released s p at_i (λ e. cc (sym u ∙ e)) in
      Keeps-Inv p _ (record { unstarted_same = k.unstarted_same; no_new = k.no_new })
        (λ q.
          let moved = held-modify_at q i (set_run released) p.made s at_i in
          let before : uses q s ≡ permits q s.semaphore true = rw u refl in
          omega (
            arith,
            moved,
            before,
            permits-idle q s.semaphore,
            release-permits s.semaphore p.free q,
            inv.balance q,
          ))
        inv
