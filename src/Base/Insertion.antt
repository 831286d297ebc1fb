-- ===== src/Base/Insertion.antt =====
-- Insertion sort: one function that meets the contract of sort.Slice.
use mathlib.Core.List.{Perm}
use mathlib.Core.List.Perm
use mathlib.Core.Path.{◌≡◌}
use mathlib.Core.Logic.{inl, inr}
use mathlib.Core.Bool.{Bool, true, false}
use mathlib.Core.List.{List, [], ◌∷◌}
use majmun.Base.Tests.{if◌then◌else◌, Bool-cases}
use majmun.Base.Lists.{All}
use majmun.Base.Weak.{IsStrictWeak}
use majmun.Base.Sorter.{Sorter, SortContract, InOrder}

module _ {A : Type 0} (less : A → A → Bool) where
  abbrev insert : A → List A → List A
  insert x [] = x ∷ []
  insert x (y ∷ ys) = let rest = insert x ys in if less y x then y ∷ rest else x ∷ y ∷ ys

  abbrev pub insertion_sort : List A → List A
  insertion_sort [] = []
  insertion_sort (x ∷ xs) = insert x (insertion_sort xs)

  insert-perm : (x : A) (xs : List A) → Perm (insert x xs) (x ∷ xs)
  insert-perm x [] = Perm.rfl
  insert-perm x (y ∷ ys) = elim (Bool-cases (less y x)) [
    | inl e ↦ rw e (Perm.trans (Perm.cons y (insert-perm x ys)) (Perm.swap x y ys))
    | inr e ↦ rw e Perm.rfl
  ]

  insertion_sort-perm : (xs : List A) → Perm (insertion_sort xs) xs
  insertion_sort-perm [] = Perm.rfl
  insertion_sort-perm (x ∷ xs) =
      Perm.trans (insert-perm x (insertion_sort xs)) (Perm.cons x (insertion_sort-perm xs))

  All-insert : (P : A → Type 0) (x : A) (xs : List A) → P x → All P xs → All P (insert x xs)
  All-insert P x [] p ps = (p, tt)
  All-insert P x (y ∷ ys) p ps = elim (Bool-cases (less y x)) [
    | inl e ↦ rw e (ps.0, All-insert P x ys p ps.1)
    | inr e ↦ rw e (p, ps)
  ]

  module _ (w : IsStrictWeak less) where
    asym : (x y : A) → less y x ≡ true → less x y ≡ false
    asym x y e = elim (Bool-cases (less x y)) [
      | inl k ↦ absurd (cc (w.trans x y x k e, w.irrefl x))
      | inr k ↦ k
    ]

    below : (x y z : A) → less z y ≡ false → less y x ≡ false → less z x ≡ false
    below x y z h k = elim (Bool-cases (less z x)) [
      | inr e ↦ e
      | inl e ↦ elim (w.cotrans z y x e) [ inl a ↦ absurd (cc) | inr a ↦ absurd (cc) ]
    ]

    All-below :
        (x y : A) (ys : List A)
        → less y x ≡ false
        → All (λ z. less z y ≡ false) ys
        → All (λ z. less z x ≡ false) ys
    All-below x y [] k h = tt
    All-below x y (z ∷ zs) k h = (below x y z h.0 k, All-below x y zs k h.1)

    insert-InOrder : (x : A) (xs : List A) → InOrder less xs → InOrder less (insert x xs)
    insert-InOrder x [] h = (tt, tt)
    insert-InOrder x (y ∷ ys) h = elim (Bool-cases (less y x)) [
      | inl e ↦ rw e (All-insert _ x ys (asym x y e) h.0, insert-InOrder x ys h.1)
      | inr e ↦ rw e ((e, All-below x y ys e h.0), h)
    ]

    insertion_sort-InOrder : (xs : List A) → InOrder less (insertion_sort xs)
    insertion_sort-InOrder [] = tt
    insertion_sort-InOrder (x ∷ xs) =
        insert-InOrder x (insertion_sort xs) (insertion_sort-InOrder xs)

abbrev pub insertion_sorter : Sorter
insertion_sorter = record { sort = λ A less xs. insertion_sort less xs }

pub insertion_contract : SortContract insertion_sorter
insertion_contract = record {
  permutes = λ A less xs. insertion_sort-perm less xs;
  sorts = λ A less xs w. insertion_sort-InOrder less w xs;
}
