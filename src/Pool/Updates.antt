-- ===== src/Pool/Updates.antt =====
-- The steps of the pool that move no permit.
use majmun.Base.{ℕ, ◌≡◌, refl, ◌∙◌, ◌≢◌, inl, inr, some, [], ◌∷◌, arith}
use majmun.Base.Tests.{leb, ◌==◌, ==_iff, Bool-cases, Option-cases}
use majmun.Base.Lists.{nth}
use majmun.Base.Text.{Text}
use majmun.Base.Maps.{Map, lookup, delete}
use majmun.Pool.{
  unstarted, Segmenter, Phase, acquiring, Pool, notify_empty, add_client, remove_client, stop,
  set_phase, at_segmenter, remove, stop_each, stop_all,
}
use majmun.Pool.Actions.{drop_client}
use majmun.Pool.Permits.{held, held-keeps, nth-modify_at, nth-modify_at_other}

-- Segmenters whose run has not begun stay so, and no client becomes their creator.
pub record Keeps (p p' : Pool) : Type 0 where
  pub unstarted_same :
      (j : ℕ) (s : Segmenter)
      → nth j p.made ≡ some s
      → s.run ≡ unstarted
      → (s' : Segmenter) × (nth j p'.made ≡ some s') × (s'.run ≡ unstarted) × (s'.ready ≡ s.ready)
  pub no_new : (c i : ℕ) → p'.phase c ≡ acquiring i → p.phase c ≡ acquiring i

-- No permit changes hands.
pub record Same (p p' : Pool) : Type 0 where
  pub keeps : Keeps p p'
  pub held_same : (q : ℕ) → held q p'.made ≡ held q p.made
  pub free_same : p'.free ≡ p.free

pub Keeps-trans : (p q r : Pool) → Keeps p q → Keeps q r → Keeps p r
Keeps-trans p q r a b = record {
  unstarted_same = λ j s e u.
      let (s', e', u', k) = a.unstarted_same j s e u in
      let (s'', e'', u'', k') = b.unstarted_same j s' e' u' in (s'', e'', u'', k' ∙ k);
  no_new = λ c i e. a.no_new c i (b.no_new c i e);
}

pub Same-trans : (p q r : Pool) → Same p q → Same q r → Same p r
Same-trans p q r a b = record {
  keeps = Keeps-trans p q r a.keeps b.keeps;
  held_same = λ k. b.held_same k ∙ a.held_same k;
  free_same = b.free_same ∙ a.free_same;
}

pub Same-refl : (p : Pool) → Same p p
Same-refl p = record {
  keeps = record { unstarted_same = λ j s e u. (s, e, u, refl); no_new = λ c i e. e };
  held_same = λ q. refl;
  free_same = refl;
}

pub at_segmenter-Keeps :
    (i : ℕ) (f : Segmenter → Segmenter) (p : Pool)
    → ((s : Segmenter)
        → nth i p.made ≡ some s
        → s.run ≡ unstarted
        → ((f s).run ≡ unstarted) × ((f s).ready ≡ s.ready))
    → Keeps p (at_segmenter i f p)
unfolding at_segmenter
at_segmenter-Keeps i f p h = record {
  unstarted_same = λ j s e u. elim (Bool-cases (i == j)) [
    | inl hit ↦
        let at_i : nth i p.made ≡ some s = rw ((==_iff i j).0 hit) e in
        let (still, same) = h s at_i u in
        (f s, rw (← (==_iff i j).0 hit) (nth-modify_at i f p.made s at_i), still, same)
    | inr miss ↦ (s, nth-modify_at_other i j f p.made (ground (arith, ==_iff i j)) ∙ e, u, refl)
  ];
  no_new = λ c j e. e;
}

-- An update that leaves the run, the semaphore and the readiness of a segmenter.
abbrev pub Leaves : (Segmenter → Segmenter) → Type 0
Leaves f =
    (s : Segmenter)
    → ((f s).run ≡ s.run) × ((f s).semaphore ≡ s.semaphore) × ((f s).ready ≡ s.ready)

pub at_segmenter-Same :
    (i : ℕ) (f : Segmenter → Segmenter) (p : Pool) → Leaves f → Same p (at_segmenter i f p)
unfolding at_segmenter
at_segmenter-Same i f p h = record {
  keeps = at_segmenter-Keeps i f p (λ s e u. ((h s).0 ∙ u, (h s).2));
  held_same = λ q. held-keeps q i f p.made (λ s. rw ((h s).0, (h s).1) refl);
  free_same = refl;
}

pub stop-Leaves : Leaves stop
unfolding stop notify_empty
stop-Leaves s = (refl, refl, refl)

pub add_client-Leaves : Leaves add_client
unfolding add_client
add_client-Leaves s = (refl, refl, refl)

pub remove_client-Leaves : Leaves remove_client
unfolding remove_client notify_empty
remove_client-Leaves s = elim (Bool-cases (leb s.client_count 1)) [
  | inl e ↦ rw (e, remove_client) (refl, refl, refl)
  | inr e ↦ rw (e, remove_client) (refl, refl, refl)
]

pub set_phase-Same :
    (c : ℕ) (ph : Phase) (p : Pool) → ((i : ℕ) → ph ≢ acquiring i) → Same p (set_phase c ph p)
unfolding set_phase
set_phase-Same c ph p h = record {
  keeps = record {
    unstarted_same = λ j s e u. (s, e, u, refl);
    no_new = λ d i e. elim (Bool-cases (c == d)) [
      | inl hit ↦ absurd (h i (rw hit at e))
      | inr miss ↦ rw miss at e
    ];
  };
  held_same = λ q. refl;
  free_same = refl;
}

forget-Same :
    (i : ℕ) (m : Map ℕ) (p : Pool) → Same p (at_segmenter i stop (record p { segmenters = m }))
unfolding at_segmenter
forget-Same i m p =
    let same = at_segmenter-Same i stop p stop-Leaves in
    record {
      keeps = record { unstarted_same = same.keeps.unstarted_same; no_new = same.keeps.no_new };
      held_same = same.held_same;
      free_same = same.free_same;
    }

pub remove-Same : (key : Text) (p : Pool) → Same p (remove key p)
unfolding remove
remove-Same key p = elim (Option-cases (lookup key p.segmenters)) [
  | inl e ↦ rw (e, remove) (Same-refl p)
  | inr (i, e) ↦ rw (e, remove) (forget-Same i (delete key p.segmenters) p)
]

pub stop_each-Same : (m : Map ℕ) (p : Pool) → Same p (stop_each m p)
unfolding stop_each
stop_each-Same [] p = Same-refl p
stop_each-Same ((k, i) ∷ m) p =
    Same-trans p (at_segmenter i stop p) _ (at_segmenter-Same i stop p stop-Leaves)
      (stop_each-Same m (at_segmenter i stop p))

pub stop_all-Same : (p : Pool) → Same p (stop_all p)
unfolding stop_all
stop_all-Same p =
    let same = stop_each-Same p.segmenters (record p { segmenters = [] }) in
    record {
      keeps = record { unstarted_same = same.keeps.unstarted_same; no_new = same.keeps.no_new };
      held_same = same.held_same;
      free_same = same.free_same;
    }

pub drop_client-Same :
    (c i : ℕ) (ph : Phase) (p : Pool) → ((j : ℕ) → ph ≢ acquiring j) → Same p (drop_client c i ph p)
unfolding drop_client
drop_client-Same c i ph p h =
    Same-trans p (set_phase c ph p) _ (set_phase-Same c ph p h)
      (at_segmenter-Same i remove_client (set_phase c ph p) remove_client-Leaves)
