-- ===== src/Pool/Counts.antt =====
-- How many clients a segmenter has.
use majmun.Base.{
  ℕ, zero, suc, ◌+◌, ◌-◌, ◌≤◌, ◌<◌, ◌≡◌, refl, ap, inl, inr, false, some, List, [], ◌∷◌, ◌++◌,
  arith,
}
use majmun.Base.Lists.{length, nth, modify_at}
use majmun.Base.Tests.{ltb, ◌==◌, if◌then◌else◌, Bool-cases, ==_iff}
use majmun.Pool.{
  Segmenter, Phase, acquiring, waiting, reading, add_client, remove_client, notify_empty,
}

-- Does the client count for segmenter `i`?
abbrev pub share : ℕ → Phase → ℕ
share i (acquiring j) = if i == j then 1 else 0
share i (waiting j) = if i == j then 1 else 0
share i (reading j) = if i == j then 1 else 0
share i _ = 0

-- The clients of segmenter `i` among the first `n`.
unfoldable pub attached : ℕ → ℕ → (ℕ → Phase) → ℕ
attached i zero phase = 0
attached i (suc n) phase = share i (phase n) + attached i n phase

unfoldable pub count_at : ℕ → List Segmenter → ℕ
count_at i [] = 0
count_at zero (s ∷ ss) = s.client_count
count_at (suc i) (s ∷ ss) = count_at i ss

pub attached_le :
    (i n : ℕ) (phase phase' : ℕ → Phase)
    → ((c : ℕ) → share i (phase' c) ≤ share i (phase c))
    → attached i n phase' ≤ attached i n phase
unfolding attached
attached_le i zero phase phase' h = omega arith
attached_le i (suc n) phase phase' h = omega (arith, h n, attached_le i n phase phase' h)

attached-outside :
    (i c n : ℕ) (ph : Phase) (phase : ℕ → Phase)
    → n ≤ c
    → attached i n (λ d. if c == d then ph else phase d) ≡ attached i n phase
unfolding attached
attached-outside i c zero ph phase h = refl
attached-outside i c (suc n) ph phase h =
    let other : (c == n) ≡ false = ground (arith, h) in
    rw other (omega (arith, attached-outside i c n ph phase (omega (arith, h))))

attached-inside :
    (i c n : ℕ) (ph : Phase) (phase : ℕ → Phase)
    → c < n
    → attached i n (λ d. if c == d then ph else phase d) + share i (phase c)
      ≡ attached i n phase + share i ph
unfolding attached
attached-inside i c zero ph phase h = absurd (omega (arith, h))
attached-inside i c (suc n) ph phase h = elim (Bool-cases (c == n)) [
  | inl e ↦
      let same : c ≡ n = (==_iff c n).0 e in
      rw (e, ap (λ d. share i (phase d)) same)
        (omega (arith, attached-outside i c n ph phase (omega (arith, same))))
  | inr e ↦ rw e (omega (arith, attached-inside i c n ph phase (ground (arith, ==_iff c n))))
]

-- One client's change of phase.
pub attached_move :
    (i c n : ℕ) (ph : Phase) (phase : ℕ → Phase)
    → attached i n (λ d. if c == d then ph else phase d) ≤ attached i n phase + share i ph
attached_move i c n ph phase = elim (Bool-cases (ltb c n)) [
  | inl e ↦ omega (arith, attached-inside i c n ph phase (ground arith))
  | inr e ↦ omega (arith, attached-outside i c n ph phase (ground arith))
]

pub attached_mono :
    (i n c : ℕ) (phase : ℕ → Phase) → n ≤ c → attached i n phase ≤ attached i c phase
unfolding attached
attached_mono i zero c phase h = omega arith
attached_mono i (suc n) zero phase h = omega (arith, h)
attached_mono i (suc n) (suc c) phase h = elim (Bool-cases (ltb n c)) [
  | inl e ↦ omega (arith, attached_mono i (suc n) c phase (ground arith))
  | inr e ↦ let same : n ≡ c = ground arith in rw same (omega arith)
]

pub count_at-keeps :
    (i j : ℕ) (f : Segmenter → Segmenter) (ss : List Segmenter)
    → ((s : Segmenter) → (f s).client_count ≡ s.client_count)
    → count_at i (modify_at j f ss) ≡ count_at i ss
unfolding count_at
count_at-keeps i j f [] h = refl
count_at-keeps zero zero f (s ∷ ss) h = h s
count_at-keeps zero (suc j) f (s ∷ ss) h = refl
count_at-keeps (suc i) zero f (s ∷ ss) h = refl
count_at-keeps (suc i) (suc j) f (s ∷ ss) h = count_at-keeps i j f ss h

pub count_at-add_client :
    (i j : ℕ) (ss : List Segmenter) (s : Segmenter)
    → nth j ss ≡ some s
    → count_at i (modify_at j add_client ss) ≡ count_at i ss + (if i == j then 1 else 0)
unfolding count_at add_client
count_at-add_client i j [] s e = cc
count_at-add_client zero zero (t ∷ ss) s e = refl
count_at-add_client zero (suc j) (t ∷ ss) s e = ground arith
count_at-add_client (suc i) zero (t ∷ ss) s e = ground arith
count_at-add_client (suc i) (suc j) (t ∷ ss) s e = ground (arith, count_at-add_client i j ss s)

pub count_at-remove_client :
    (i j : ℕ) (ss : List Segmenter)
    → count_at i (modify_at j remove_client ss) ≡ count_at i ss - (if i == j then 1 else 0)
unfolding count_at remove_client notify_empty
count_at-remove_client i j [] = ground arith
count_at-remove_client zero zero (t ∷ ss) = ground arith
count_at-remove_client zero (suc j) (t ∷ ss) = ground arith
count_at-remove_client (suc i) zero (t ∷ ss) = ground arith
count_at-remove_client (suc i) (suc j) (t ∷ ss) = ground (arith, count_at-remove_client i j ss)

pub count_at-append :
    (i : ℕ) (ss : List Segmenter) (s : Segmenter) → count_at i ss ≤ count_at i (ss ++ s ∷ [])
unfolding count_at
count_at-append zero [] s = omega arith
count_at-append (suc i) [] s = omega arith
count_at-append zero (t ∷ ss) s = omega arith
count_at-append (suc i) (t ∷ ss) s = count_at-append i ss s

pub count_at-last :
    (ss : List Segmenter) (s : Segmenter) → count_at (length ss) (ss ++ s ∷ []) ≡ s.client_count
unfolding count_at
count_at-last [] s = refl
count_at-last (t ∷ ss) s = count_at-last ss s

pub count_at-end : (ss : List Segmenter) → count_at (length ss) ss ≡ 0
unfolding count_at
count_at-end [] = refl
count_at-end (t ∷ ss) = count_at-end ss

-- One client goes, from a bound that holds for the clients of any number.
pub attached_drop :
    (i c n m : ℕ) (ph : Phase) (phase : ℕ → Phase)
    → share i ph ≡ 0
    → ((k : ℕ) → attached i k phase ≤ m)
    → attached i n (λ d. if c == d then ph else phase d) ≤ m - share i (phase c)
unfolding attached
attached_drop i c n m ph phase e h = elim (Bool-cases (ltb c n)) [
  | inl l ↦ omega (arith, e, h n, attached-inside i c n ph phase (ground arith))
  | inr l ↦ omega (
    arith,
    h (suc c),
    attached-outside i c n ph phase (ground arith),
    attached_mono i n c phase (ground arith),
  )
]

pub nth-within :
    (i : ℕ) (ss : List Segmenter) → i < length ss → (s : Segmenter) × (nth i ss ≡ some s)
nth-within i [] h = absurd (omega (arith, h))
nth-within zero (s ∷ ss) h = (s, refl)
nth-within (suc i) (s ∷ ss) h = nth-within i ss (omega (arith, h))
