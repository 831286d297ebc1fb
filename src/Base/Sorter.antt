-- ===== src/Base/Sorter.antt =====
-- sort.Slice: its contract. It rearranges a slice and, for a strict weak order, leaves no entry
-- behind one that must follow it. It is not stable, so nothing is said of ties.
use mathlib.Core.Path.{◌≡◌}
use mathlib.Core.Bool.{Bool, false}
use mathlib.Core.List.{List, [], ◌∷◌, Perm}
use majmun.Base.Lists.{All}
use majmun.Base.Weak.{IsStrictWeak}

pub record Sorter : Type 1 where
  pub sort : (A : Type 0) → (A → A → Bool) → List A → List A

abbrev pub InOrder : {A : Type 0} → (A → A → Bool) → List A → Type 0
InOrder less [] = Unit
InOrder less (x ∷ xs) = All (λ y. less y x ≡ false) xs × InOrder less xs

pub record SortContract (s : Sorter) : Type 1 where
  pub permutes : (A : Type 0) (less : A → A → Bool) (xs : List A) → Perm (s.sort A less xs) xs
  pub sorts :
      (A : Type 0) (less : A → A → Bool) (xs : List A)
      → IsStrictWeak less
      → InOrder less (s.sort A less xs)
