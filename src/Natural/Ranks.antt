-- ===== src/Natural/Ranks.antt =====
-- An independent description of the natural order: a string is cut into its runs of digits and its
-- other bytes, and the strings are compared piece by piece.
use majmun.Base.{
  ℕ, zero, suc, ◌≤◌, ◌≡◌, refl, ap, inl, inr, Bool, true, false, List, [], ◌∷◌, arith, map,
}
use majmun.Base.Tests.{ltb, if◌then◌else◌, Bool-cases}
use majmun.Base.Lists.{length, take, drop, get_or}
use majmun.Base.Text.{Text}
use majmun.Natural.{is_digit, digit_run, parse_int, extract_number, natural_less_loop, natural_less}

-- A run of digits, or another byte.
pub data Piece : Type 0 where
  run : Text → Piece
  byte : ℕ → Piece

pub push_digit : ℕ → List Piece → List Piece
push_digit c [] = run (c ∷ []) ∷ []
push_digit c (run ds ∷ ps) = run (c ∷ ds) ∷ ps
push_digit c (byte d ∷ ps) = run (c ∷ []) ∷ byte d ∷ ps

pub pieces : Text → List Piece
pieces [] = []
pieces (c ∷ s) = let rest = pieces s in if is_digit c then push_digit c rest else byte c ∷ rest

-- A run counts by its number, 0 if it does not fit 64 bits.
pub data Rank : Type 0 where
  number : ℕ → Rank
  char : ℕ → Rank

pub rank : Piece → Rank
rank (run ds) = number (get_or (parse_int ds) 0)
rank (byte c) = char c

unfoldable pub ranks : Text → List Rank
ranks s = map rank (pieces s)

-- Numbers come before other bytes.
unfoldable pub rank_less : Rank → Rank → Bool
rank_less (number m) (number n) = ltb m n
rank_less (number m) (char d) = true
rank_less (char c) (number n) = false
rank_less (char c) (char d) = ltb c d

unfoldable pub ranks_less : List Rank → List Rank → Bool
ranks_less [] [] = false
ranks_less [] (y ∷ ys) = true
ranks_less (x ∷ xs) [] = false
ranks_less (x ∷ xs) (y ∷ ys) =
    if rank_less x y then true else if rank_less y x then false else ranks_less xs ys

pieces_digit :
    (c : ℕ) (s : Text)
    → is_digit c ≡ true
    → pieces (c ∷ s)
      ≡ run (take (digit_run (c ∷ s)) (c ∷ s)) ∷ pieces (drop (digit_run (c ∷ s)) (c ∷ s))
unfolding pieces digit_run push_digit
pieces_digit c [] h = rw h
pieces_digit c (d ∷ s) h = elim (Bool-cases (is_digit d)) [
  | inl e ↦ rw (h, pieces_digit d s e, e)
  | inr e ↦ ground arith
]

ranks_digit :
    (c : ℕ) (s : Text)
    → is_digit c ≡ true
    → ranks (c ∷ s)
      ≡ number (extract_number (c ∷ s)).0 ∷ ranks (drop (extract_number (c ∷ s)).1 (c ∷ s))
unfolding ranks extract_number rank
ranks_digit c s h = ap (map rank) (pieces_digit c s h)

ranks_byte : (c : ℕ) (s : Text) → is_digit c ≡ false → ranks (c ∷ s) ≡ char c ∷ ranks s
unfolding ranks pieces rank
ranks_byte c s h = rw h

length-drop-le {ℓ} : {A : Type ℓ} (n : ℕ) (xs : List A) → length (drop n xs) ≤ length xs
length-drop-le zero xs = omega arith
length-drop-le (suc n) [] = omega arith
length-drop-le (suc n) (x ∷ xs) = omega (arith, length-drop-le n xs)

-- A number takes at least one byte.
extract_drops :
    (c : ℕ) (s : Text)
    → is_digit c ≡ true
    → length (drop (extract_number (c ∷ s)).1 (c ∷ s)) ≤ length s
unfolding extract_number digit_run
extract_drops c s h = rw h (length-drop-le (digit_run s) s)

abbrev first_rank : ℕ → Text → Rank
first_rank c s = if is_digit c then number (extract_number (c ∷ s)).0 else char c

abbrev after_first : ℕ → Text → Text
after_first c s = if is_digit c then drop (extract_number (c ∷ s)).1 (c ∷ s) else s

ranks_cons : (c : ℕ) (s : Text) → ranks (c ∷ s) ≡ first_rank c s ∷ ranks (after_first c s)
ranks_cons c s = elim (Bool-cases (is_digit c)) [
  | inl e ↦ rw e (ranks_digit c s e)
  | inr e ↦ rw e (ranks_byte c s e)
]

ranks_nil : ranks [] ≡ []
unfolding ranks pieces
ranks_nil = refl

loop-ranks :
    (fuel : ℕ) (a b : Text)
    → length a ≤ fuel
    → natural_less_loop fuel a b ≡ ranks_less (ranks a) (ranks b)
unfolding natural_less_loop ranks_less rank_less
loop-ranks fuel [] [] h = rw ranks_nil
loop-ranks fuel [] (d ∷ t) h = rw (ranks_nil, ranks_cons d t)
loop-ranks fuel (c ∷ s) [] h = rw (ranks_nil, ranks_cons c s)
loop-ranks zero (c ∷ s) (d ∷ t) h = absurd (omega arith)
loop-ranks (suc fuel) (c ∷ s) (d ∷ t) h =
    rw (ranks_cons c s, ranks_cons d t)
      (ground (
        arith,
        extract_drops c s,
        loop-ranks fuel s t,
        loop-ranks fuel (drop (extract_number (c ∷ s)).1 (c ∷ s))
            (drop (extract_number (d ∷ t)).1 (d ∷ t)),
      ))

-- The fuel of `natural_less` is enough, and it compares the pieces from left to right.
pub natural_less-ranks : (a b : Text) → natural_less a b ≡ ranks_less (ranks a) (ranks b)
unfolding natural_less
natural_less-ranks a b = loop-ranks (length a) a b (omega arith)
