-- ===== src/Pool/Permits.antt =====
-- The permits of a semaphore are held by running segmenters, or free.
use majmun.Base.{
  ℕ, zero, suc, ◌-◌, ◌+◌, ◌≡◌, refl, ap, ◌≢◌, inl, inr, Bool, true, false, Option, none, some, List,
  [], ◌∷◌, ◌++◌, arith,
}
use majmun.Base.Tests.{ltb, ◌==◌, ==_iff, if◌then◌else◌, Bool-cases}
use majmun.Base.Lists.{length, nth, modify_at}
use majmun.Pool.{
  RunState, unstarted, running, draining, released, ended, Segmenter, acquiring, acquire, release,
}

abbrev pub holds_permit : RunState → Bool
holds_permit unstarted = false
holds_permit running = true
holds_permit draining = true
holds_permit released = false
holds_permit ended = false

abbrev pub permits : ℕ → Option ℕ → Bool → ℕ
permits q none holds = 0
permits q (some r) holds = if holds then (if r == q then 1 else 0) else 0

-- The permits of semaphore `q` that a segmenter holds.
abbrev pub uses : ℕ → Segmenter → ℕ
uses q s = permits q s.semaphore (holds_permit s.run)

abbrev pub held : ℕ → List Segmenter → ℕ
held q [] = 0
held q (s ∷ ss) = uses q s + held q ss

pub held-modify_at :
    (q i : ℕ) (f : Segmenter → Segmenter) (ss : List Segmenter) (s : Segmenter)
    → nth i ss ≡ some s
    → held q (modify_at i f ss) + uses q s ≡ held q ss + uses q (f s)
held-modify_at q i f [] s e = absurd (cc e)
held-modify_at q zero f (t ∷ ss) s e = let same : t ≡ s = cc e in rw same (omega arith)
held-modify_at q (suc i) f (t ∷ ss) s e = omega (arith, held-modify_at q i f ss s e)

pub held-keeps :
    (q i : ℕ) (f : Segmenter → Segmenter) (ss : List Segmenter)
    → ((s : Segmenter) → uses q (f s) ≡ uses q s)
    → held q (modify_at i f ss) ≡ held q ss
held-keeps q i f [] h = refl
held-keeps q zero f (t ∷ ss) h = omega (arith, h t)
held-keeps q (suc i) f (t ∷ ss) h = omega (arith, held-keeps q i f ss h)

pub held-append : (q : ℕ) (ss ts : List Segmenter) → held q (ss ++ ts) ≡ held q ss + held q ts
held-append q [] ts = omega arith
held-append q (s ∷ ss) ts = omega (arith, held-append q ss ts)

pub nth-modify_at :
    (i : ℕ) (f : Segmenter → Segmenter) (ss : List Segmenter) (s : Segmenter)
    → nth i ss ≡ some s
    → nth i (modify_at i f ss) ≡ some (f s)
nth-modify_at i f [] s e = absurd (cc e)
nth-modify_at zero f (t ∷ ss) s e = let same : t ≡ s = cc e in ap (λ u. some (f u)) same
nth-modify_at (suc i) f (t ∷ ss) s e = nth-modify_at i f ss s e

pub nth-modify_at_other :
    (i j : ℕ) (f : Segmenter → Segmenter) (ss : List Segmenter)
    → i ≢ j
    → nth j (modify_at i f ss) ≡ nth j ss
nth-modify_at_other i j f [] ne = refl
nth-modify_at_other zero zero f (t ∷ ss) ne = absurd (ne refl)
nth-modify_at_other zero (suc j) f (t ∷ ss) ne = refl
nth-modify_at_other (suc i) zero f (t ∷ ss) ne = refl
nth-modify_at_other (suc i) (suc j) f (t ∷ ss) ne =
    nth-modify_at_other i j f ss (λ e. ne (ap suc e))

pub nth-append_old :
    (i : ℕ) (ss ts : List Segmenter) (s : Segmenter) → nth i ss ≡ some s → nth i (ss ++ ts) ≡ some s
nth-append_old i [] ts s e = absurd (cc e)
nth-append_old zero (t ∷ ss) ts s e = e
nth-append_old (suc i) (t ∷ ss) ts s e = nth-append_old i ss ts s e

pub nth-append_new : (ss : List Segmenter) (s : Segmenter) → nth (length ss) (ss ++ s ∷ []) ≡ some s
nth-append_new [] s = refl
nth-append_new (t ∷ ss) s = nth-append_new ss s

pub nth_end : (ss : List Segmenter) → nth (length ss) ss ≡ none
nth_end [] = refl
nth_end (s ∷ ss) = nth_end ss

pub same_index : (i j : ℕ) → acquiring i ≡ acquiring j → i ≡ j
same_index i j e = cc e

pub permits-idle : (q : ℕ) (semaphore : Option ℕ) → permits q semaphore false ≡ 0
permits-idle q none = refl
permits-idle q (some r) = refl

pub acquire-permits :
    (semaphore : Option ℕ) (free free' : ℕ → ℕ) (q : ℕ)
    → acquire semaphore free ≡ some free'
    → free' q + permits q semaphore true ≡ free q
unfolding acquire
acquire-permits none free free' q e =
    let same : free ≡ free' = cc e in omega (arith, ap (λ f. f q) same)
acquire-permits (some r) free free' q e = elim (Bool-cases (ltb 0 (free r))) [
  | inr k ↦ absurd (cc (rw k at e))
  | inl k ↦
      let same : some (λ n. if r == n then free n - 1 else free n) ≡ some free' = rw k at e in
      taken (cc same) k
]
  where
    taken :
        (λ n. if r == n then free n - 1 else free n) ≡ free'
        → ltb 0 (free r) ≡ true
        → free' q + (if r == q then 1 else 0) ≡ free q
    taken same k =
        let at_q : (if r == q then free q - 1 else free q) ≡ free' q = ap (λ f. f q) same in
        elim (Bool-cases (r == q)) [
          | inl hit ↦ let same_free : free r ≡ free q = ap free ((==_iff r q).0 hit) in ground arith
          | inr miss ↦ ground arith
        ]

pub release-permits :
    (semaphore : Option ℕ) (free : ℕ → ℕ) (q : ℕ)
    → release semaphore free q ≡ free q + permits q semaphore true
unfolding release
release-permits none free q = omega arith
release-permits (some r) free q = ground arith

pub some_same : (s t : Segmenter) → some s ≡ some t → s ≡ t
some_same s t e = cc e
