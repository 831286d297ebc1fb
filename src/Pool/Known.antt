-- ===== src/Pool/Known.antt =====
-- The steps of the pool that leave the counts of clients and add no client.
use majmun.Base.{ℕ, zero, suc, ◌≤◌, ◌<◌, ◌≡◌, ◌≢◌, refl, ◌∙◌, inl, inr, some, List, [], ◌∷◌, arith}
use majmun.Base.Tests.{◌==◌, ==_iff, Bool-cases, Option-cases}
use majmun.Base.Lists.{length, modify_at, All}
use majmun.Base.Text.{Text, text_eq}
use majmun.Base.Maps.{Map, lookup, insert, delete}
use majmun.Pool.{
  RunState, Ready, not_ready, started, start_failed, Segmenter, Phase, joining, Pool, notify_empty,
  stop, set_ready, set_run, set_phase, at_segmenter, remove, stop_each, stop_all,
}
use majmun.Pool.Counts.{share, count_at, count_at-keeps}

-- The segmenters of a map are among the first `n` made.
abbrev pub Known : ℕ → Map ℕ → Type 0
Known n m = All (λ e. e.1 < n) m

pub lookup-Known : (n i : ℕ) (key : Text) (m : Map ℕ) → Known n m → lookup key m ≡ some i → i < n
unfolding lookup
lookup-Known n i key [] h e = absurd (cc e)
lookup-Known n i key ((k, j) ∷ m) h e = elim (Bool-cases (text_eq k key)) [
  | inl hit ↦ let same : j ≡ i = cc (rw hit at e) in rw (← same) h.0
  | inr miss ↦ lookup-Known n i key m h.1 (rw miss at e)
]

pub insert-Known : (n i : ℕ) (key : Text) (m : Map ℕ) → i < n → Known n m → Known n (insert key i m)
unfolding insert
insert-Known n i key [] k h = (k, tt)
insert-Known n i key ((j, v) ∷ m) k h = elim (Bool-cases (text_eq j key)) [
  | inl e ↦ rw (e, insert) (k, h.1)
  | inr e ↦ rw (e, insert) (h.0, insert-Known n i key m k h.1)
]

pub delete-Known : (n : ℕ) (key : Text) (m : Map ℕ) → Known n m → Known n (delete key m)
unfolding delete
delete-Known n key [] h = tt
delete-Known n key ((j, v) ∷ m) h = elim (Bool-cases (text_eq j key)) [
  | inl e ↦ rw (e, delete) (delete-Known n key m h.1)
  | inr e ↦ rw (e, delete) (h.0, delete-Known n key m h.1)
]

pub length-modify_at :
    (i : ℕ) (f : Segmenter → Segmenter) (ss : List Segmenter)
    → length (modify_at i f ss) ≡ length ss
length-modify_at i f [] = refl
length-modify_at zero f (s ∷ ss) = refl
length-modify_at (suc i) f (s ∷ ss) = omega (arith, length-modify_at i f ss)

pub record Quiet (p p' : Pool) : Type 0 where
  pub same_counts : (i : ℕ) → count_at i p'.made ≡ count_at i p.made
  pub shares : (i c : ℕ) → share i (p'.phase c) ≤ share i (p.phase c)
  pub joins : (c i : ℕ) → p'.phase c ≡ joining i → p.phase c ≡ joining i
  pub lengths : length p'.made ≡ length p.made
  pub maps : (n : ℕ) → Known n p.segmenters → Known n p'.segmenters

pub Quiet-refl : (p : Pool) → Quiet p p
Quiet-refl p = record {
  same_counts = λ i. refl;
  shares = λ i c. omega arith;
  joins = λ c i e. e;
  lengths = refl;
  maps = λ n h. h;
}

pub Quiet-trans : (p q r : Pool) → Quiet p q → Quiet q r → Quiet p r
Quiet-trans p q r a b = record {
  same_counts = λ i. b.same_counts i ∙ a.same_counts i;
  shares = λ i c. omega (arith, a.shares i c, b.shares i c);
  joins = λ c i e. a.joins c i (b.joins c i e);
  lengths = b.lengths ∙ a.lengths;
  maps = λ n h. b.maps n (a.maps n h);
}

-- An update that leaves the count of a segmenter.
abbrev pub KeepsCount : (Segmenter → Segmenter) → Type 0
KeepsCount f = (s : Segmenter) → (f s).client_count ≡ s.client_count

pub at_segmenter-Quiet :
    (i : ℕ) (f : Segmenter → Segmenter) (p : Pool) → KeepsCount f → Quiet p (at_segmenter i f p)
unfolding at_segmenter
at_segmenter-Quiet i f p h = record {
  same_counts = λ j. count_at-keeps j i f p.made h;
  shares = λ j c. omega arith;
  joins = λ c j e. e;
  lengths = length-modify_at i f p.made;
  maps = λ n k. k;
}

stop-KeepsCount : KeepsCount stop
unfolding stop notify_empty
stop-KeepsCount s = refl

pub set_run-KeepsCount : (r : RunState) → KeepsCount (set_run r)
unfolding set_run
set_run-KeepsCount r s = refl

pub set_ready-KeepsCount : (r : Ready) → KeepsCount (set_ready r)
unfolding set_ready
set_ready-KeepsCount r s = go s.ready refl
  where
    go : (x : Ready) → s.ready ≡ x → (set_ready r s).client_count ≡ s.client_count
    go not_ready e = rw (e, set_ready) refl
    go started e = rw (e, set_ready) refl
    go start_failed e = rw (e, set_ready) refl

pub set_phase-Quiet :
    (c : ℕ) (ph : Phase) (p : Pool)
    → ((i : ℕ) → share i ph ≤ share i (p.phase c))
    → ((i : ℕ) → ph ≢ joining i)
    → Quiet p (set_phase c ph p)
unfolding set_phase
set_phase-Quiet c ph p h k = record {
  same_counts = λ i. refl;
  shares = λ i d. elim (Bool-cases (c == d)) [
    | inl hit ↦ rw (hit, ← (==_iff c d).0 hit) (h i)
    | inr miss ↦ rw miss (omega arith)
  ];
  joins = λ d i e. elim (Bool-cases (c == d)) [
    | inl hit ↦ absurd (k i (rw hit at e))
    | inr miss ↦ rw miss at e
  ];
  lengths = refl;
  maps = λ n h. h;
}

forget-Quiet :
    (i : ℕ) (m : Map ℕ) (p : Pool)
    → ((n : ℕ) → Known n p.segmenters → Known n m)
    → Quiet p (at_segmenter i stop (record p { segmenters = m }))
unfolding at_segmenter
forget-Quiet i m p h =
    let quiet = at_segmenter-Quiet i stop p stop-KeepsCount in
    record {
      same_counts = quiet.same_counts;
      shares = quiet.shares;
      joins = quiet.joins;
      lengths = quiet.lengths;
      maps = h;
    }

pub remove-Quiet : (key : Text) (p : Pool) → Quiet p (remove key p)
unfolding remove
remove-Quiet key p = elim (Option-cases (lookup key p.segmenters)) [
  | inl e ↦ rw (e, remove) (Quiet-refl p)
  | inr (i, e) ↦
      rw (e, remove)
        (forget-Quiet i (delete key p.segmenters) p (λ n. delete-Known n key p.segmenters))
]

stop_each-Quiet : (m : Map ℕ) (p : Pool) → Quiet p (stop_each m p)
unfolding stop_each
stop_each-Quiet [] p = Quiet-refl p
stop_each-Quiet ((k, i) ∷ m) p =
    Quiet-trans p (at_segmenter i stop p) _ (at_segmenter-Quiet i stop p stop-KeepsCount)
      (stop_each-Quiet m (at_segmenter i stop p))

pub stop_all-Quiet : (p : Pool) → Quiet p (stop_all p)
unfolding stop_all
stop_all-Quiet p =
    let empty = record p { segmenters = [] } in
    let emptied : Quiet p empty = record {
      same_counts = λ i. refl;
      shares = λ i c. omega arith;
      joins = λ c i e. e;
      lengths = refl;
      maps = λ n h. tt;
    } in
    Quiet-trans p empty _ emptied (stop_each-Quiet p.segmenters empty)

pub free-Quiet : (free : ℕ → ℕ) (p : Pool) → Quiet p (record p { free = free })
free-Quiet free p = record {
  same_counts = λ i. refl;
  shares = λ i c. omega arith;
  joins = λ c i e. e;
  lengths = refl;
  maps = λ n h. h;
}
