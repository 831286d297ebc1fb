-- ===== src/Natural.antt =====
-- internal/listing/m3u8/rules/playlist/sort_natural.go: the natural order of names.
-- The loop of naturalLess takes fuel; each round drops at least one byte of the first string, so
-- the length of that string is enough.
pub mod Ranks
pub mod Order
pub mod Tests
use majmun.Base.{
  ℕ, zero, suc, ◌+◌, ◌-◌, ◌*◌, ◌^◌, Bool, true, false, not, ◌&&◌, Option, none, some, List, [], ◌∷◌,
}
use majmun.Base.Tests.{ltb, leb, ◌==◌, if◌then◌else◌}
use majmun.Base.Lists.{length, take, drop, get_or}
use majmun.Base.Text.{Text}

-- unicode.IsDigit on a byte read as a rune: below 256 the decimal digits are '0' to '9'.
unfoldable pub is_digit : ℕ → Bool
is_digit c = leb b'0' c && leb c b'9'

-- How many digits stand in front.
unfoldable pub digit_run : Text → ℕ
digit_run [] = 0
digit_run (c ∷ s) = if is_digit c then suc (digit_run s) else 0

unfoldable pub digits_value : ℕ → Text → ℕ
digits_value acc [] = acc
digits_value acc (c ∷ s) = digits_value (acc * 10 + (c - b'0')) s

abbrev pub max_int64 : ℕ
max_int64 = 2 ^ 63 - 1

-- strconv.ParseInt at base 10 and 64 bits on a string of digits: an error when the string is
-- empty or its value is out of range.
unfoldable pub parse_int : Text → Option ℕ
unfolding digits_value
parse_int [] = none
parse_int (c ∷ s) = let n = digits_value 0 (c ∷ s) in if leb n max_int64 then some n else none

-- The number in front and the bytes that it takes; 0 when ParseInt fails.
unfoldable pub extract_number : Text → ℕ × ℕ
unfolding parse_int digit_run
extract_number s = let i = digit_run s in (get_or (parse_int (take i s)) 0, i)

natural_less_loop : ℕ → Text → Text → Bool
natural_less_loop fuel [] [] = false
natural_less_loop fuel [] (d ∷ t) = true
natural_less_loop fuel (c ∷ s) [] = false
natural_less_loop zero (c ∷ s) (d ∷ t) = false
natural_less_loop (suc fuel) (c ∷ s) (d ∷ t) =
    let (m, i) = extract_number (c ∷ s) in
    let (n, j) = extract_number (d ∷ t) in
    let after_numbers = natural_less_loop fuel (drop i (c ∷ s)) (drop j (d ∷ t)) in
    let after_byte = natural_less_loop fuel s t in
    if is_digit c && is_digit d
    then (if not (m == n) then ltb m n else after_numbers)
    else if is_digit c
    then true
    else if is_digit d
    then false
    else if not (c == d)
    then ltb c d
    else after_byte

unfoldable pub natural_less : Text → Text → Bool
unfolding natural_less_loop
natural_less a b = natural_less_loop (length a) a b
