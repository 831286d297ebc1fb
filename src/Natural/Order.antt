-- ===== src/Natural/Order.antt =====
-- The natural order is a strict weak order, the contract of sort.Slice.
use majmun.Base.{◌≡◌, refl, ◌⊎◌, inl, inr, true, false, List, [], ◌∷◌, arith}
use majmun.Base.Tests.{Bool-cases}
use majmun.Base.Weak.{IsStrictWeak}
use majmun.Natural.{natural_less}
use majmun.Natural.Ranks.{Rank, number, char, rank_less, ranks_less, ranks, natural_less-ranks}

rank_tri : (x y : Rank) → rank_less x y ≡ false → rank_less y x ≡ false → x ≡ y
unfolding rank_less
rank_tri (number m) (number n) h k = ground arith
rank_tri (number m) (char d) h k = cc
rank_tri (char c) (number n) h k = cc
rank_tri (char c) (char d) h k = ground arith

rank_irrefl : (x : Rank) → rank_less x x ≡ false
unfolding rank_less
rank_irrefl (number m) = ground arith
rank_irrefl (char c) = ground arith

rank_asym : (x y : Rank) → rank_less x y ≡ true → rank_less y x ≡ false
unfolding rank_less
rank_asym (number m) (number n) h = ground arith
rank_asym (number m) (char d) h = refl
rank_asym (char c) (number n) h = cc
rank_asym (char c) (char d) h = ground arith

rank_trans : (x y z : Rank) → rank_less x y ≡ true → rank_less y z ≡ true → rank_less x z ≡ true
unfolding rank_less
rank_trans (number m) y (char d) h k = refl
rank_trans (number m) (number n) (number k) h h' = ground arith
rank_trans (number m) (char c) (number k) h h' = cc
rank_trans (char c) (number n) z h h' = cc
rank_trans (char c) (char d) (number k) h h' = cc
rank_trans (char c) (char d) (char e) h h' = ground arith

ranks_tri : (xs ys : List Rank) → ranks_less xs ys ≡ false → ranks_less ys xs ≡ false → xs ≡ ys
unfolding ranks_less
ranks_tri [] [] h k = refl
ranks_tri [] (y ∷ ys) h k = cc
ranks_tri (x ∷ xs) [] h k = cc
ranks_tri (x ∷ xs) (y ∷ ys) h k =
    ground (arith, rank_tri x y, rank_asym x y, rank_asym y x, ranks_tri xs ys)

ranks_irrefl : (xs : List Rank) → ranks_less xs xs ≡ false
unfolding ranks_less
ranks_irrefl [] = refl
ranks_irrefl (x ∷ xs) = ground (arith, rank_irrefl x, ranks_irrefl xs)

ranks_trans :
    (xs ys zs : List Rank)
    → ranks_less xs ys ≡ true
    → ranks_less ys zs ≡ true
    → ranks_less xs zs ≡ true
unfolding ranks_less
ranks_trans [] [] [] h k = h
ranks_trans [] (y ∷ ys) [] h k = cc
ranks_trans [] ys (z ∷ zs) h k = refl
ranks_trans (x ∷ xs) [] zs h k = cc
ranks_trans (x ∷ xs) (y ∷ ys) [] h k = cc
ranks_trans (x ∷ xs) (y ∷ ys) (z ∷ zs) h k = ground (
  arith,
  rank_tri x y,
  rank_tri y z,
  rank_asym x y,
  rank_asym y z,
  rank_trans x y z,
  rank_asym x z,
  ranks_trans xs ys zs,
)

ranks_cotrans :
    (xs ys zs : List Rank)
    → ranks_less xs zs ≡ true
    → (ranks_less xs ys ≡ true) ⊎ (ranks_less ys zs ≡ true)
ranks_cotrans xs ys zs h = elim (Bool-cases (ranks_less xs ys)) [
  | inl e ↦ inl e
  | inr e ↦ elim (Bool-cases (ranks_less ys xs)) [
    | inl k ↦ inr (ranks_trans ys xs zs k h)
    | inr k ↦ inr (rw (← ranks_tri xs ys e k) h)
  ]
]

-- The natural order is a strict weak order: nothing comes before itself, it is transitive, and what
-- lies between two strings is separated from one of them.
pub natural_less-IsStrictWeak : IsStrictWeak natural_less
natural_less-IsStrictWeak = record {
  irrefl = λ a. rw natural_less-ranks (ranks_irrefl (ranks a));
  trans = λ a b c h k. rw natural_less-ranks (
      ranks_trans (ranks a) (ranks b) (ranks c) (rw natural_less-ranks at h)
        (rw natural_less-ranks at k));
  cotrans = λ a b c h.
      rw (natural_less-ranks a b, natural_less-ranks b c)
        (ranks_cotrans (ranks a) (ranks b) (ranks c) (rw natural_less-ranks at h));
}
