-- ===== src/Sorting/Keyed.antt =====
-- The groups of the sort rule hold the channels of their keys.
use mathlib.Core.Logic.{∥∥₁_elim}
use mathlib.Core.HLevel.{×_prop}
use mathlib.Core.Bool.{Bool-set}
use mathlib.Core.List.{Perm, Permᴰ}
use majmun.Base.{ℕ, ◌≡◌, subst, inl, inr, Bool, true, List, [], ◌∷◌}
use majmun.Base.Tests.{Bool-cases}
use majmun.Base.Lists.{All, All-append, get_or}
use majmun.Base.Text.{Text, text_eq, text_eq_iff, text_eq_refl}
use majmun.Base.Maps.{lookup, insert}
use majmun.Channel.{Channel}
use majmun.Matcher.{Groups, append_to}
use majmun.Sorting.{Sort, get_group_key, groups_of}

-- A Boolean test holds of all entries.
abbrev pub Every {ℓ} : {A : Type ℓ} → (A → Bool) → List A → Type 0
Every test xs = All (λ x. test x ≡ true) xs

All-prop {ℓ} :
    {A : Type ℓ} (P : A → Type 0) → ((x : A) → IsProp (P x)) → (xs : List A) → IsProp (All P xs)
All-prop P h [] = hlevel
All-prop P h (x ∷ xs) = ×_prop (h x) (All-prop P h xs)

All-Permᴰ {ℓ} : {A : Type ℓ} (P : A → Type 0) {xs ys : List A} → Permᴰ xs ys → All P xs → All P ys
All-Permᴰ P Permᴰ.nil h = tt
All-Permᴰ P (Permᴰ.cons e d) h = (subst P e h.0, All-Permᴰ P d h.1)
All-Permᴰ P (Permᴰ.swap e f) h = (subst P f h.1.0, (subst P e h.0, h.1.1))
All-Permᴰ P (Permᴰ.trans d e) h = All-Permᴰ P e (All-Permᴰ P d h)

pub All-Perm {ℓ} :
    {A : Type ℓ} (P : A → Type 0) {xs ys : List A}
    → ((x : A) → IsProp (P x))
    → Perm xs ys
    → All P xs
    → All P ys
All-Perm P {ys = ys} hp p h = ∥∥₁_elim p (All-prop P hp ys) (λ d. All-Permᴰ P d h)

pub Every-prop {ℓ} : {A : Type ℓ} (test : A → Bool) (xs : List A) → IsProp (Every test xs)
Every-prop test xs = All-prop (λ x. test x ≡ true) (λ x. Bool-set (test x) true) xs

module _ (memory : ℕ → Channel) (rule : Sort) where
  abbrev pub key_of : ℕ → Text
  key_of i = get_group_key rule (memory i)

  -- The groups hold channels of their keys.
  abbrev pub Keyed : Groups → Type 0
  Keyed gs = All (λ (g : Text × List ℕ). Every (λ i. text_eq (key_of i) g.0) g.1) gs

  insert-Keyed :
      (k : Text) (rs : List ℕ) (gs : Groups)
      → Every (λ i. text_eq (key_of i) k) rs
      → Keyed gs
      → Keyed (insert k rs gs)
  unfolding insert
  insert-Keyed k rs [] h w = (h, tt)
  insert-Keyed k rs ((j, qs) ∷ gs) h w = elim (Bool-cases (text_eq j k)) [
    | inl e ↦ rw e (h, w.1)
    | inr e ↦ rw e (w.0, insert-Keyed k rs gs h w.1)
  ]

  found-Keyed :
      (k : Text) (gs : Groups)
      → Keyed gs
      → Every (λ i. text_eq (key_of i) k) (get_or (lookup k gs) [])
  unfolding lookup
  found-Keyed k [] w = tt
  found-Keyed k ((j, qs) ∷ gs) w = elim (Bool-cases (text_eq j k)) [
    | inl e ↦ rw (e, ← (text_eq_iff j k).0 e) w.0
    | inr e ↦ rw e (found-Keyed k gs w.1)
  ]

  pub groups_of-Keyed : (rs : List ℕ) (gs : Groups) → Keyed gs → Keyed (groups_of rule memory rs gs)
  unfolding groups_of append_to
  groups_of-Keyed [] gs w = w
  groups_of-Keyed (r ∷ rs) gs w =
      let k = get_group_key rule (memory r) in
      groups_of-Keyed rs (append_to k r gs) (
        insert-Keyed k _ gs
          (All-append (λ i. text_eq (key_of i) k ≡ true) (get_or (lookup k gs) []) (r ∷ [])
            (found-Keyed k gs w) (text_eq_refl k, tt))
          w)
