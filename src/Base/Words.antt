-- ===== src/Base/Words.antt =====
-- strings.Fields and strings.Join, over bytes. A white-space rune begins with a byte that stands in no
-- other rune, so the bytes can be read from left to right.
use majmun.Base.Tests.{leb, ◌==◌, if◌then◌else◌}
use majmun.Base.Text.{Text}
use Prim.Native.Nat.{ℕ, zero, suc}
use mathlib.Core.Bool.{Bool, ◌&&◌, ◌||◌}
use mathlib.Core.List.{List, [], ◌∷◌, ◌++◌}

ascii_space : ℕ → Bool
ascii_space c = leb 9 c && leb c 13 || c == 32

two_byte_space : ℕ → ℕ → Bool
two_byte_space c d = c == 0xc2 && (d == 0x85 || d == 0xa0)

three_byte_space : ℕ → ℕ → ℕ → Bool
three_byte_space c d e =
    c == 0xe1 && d == 0x9a && e == 0x80
    || c == 0xe2 && d == 0x80 && (leb 0x80 e && leb e 0x8a || e == 0xa8 || e == 0xa9 || e == 0xaf)
    || c == 0xe2 && d == 0x81 && e == 0x9f
    || c == 0xe3 && d == 0x80 && e == 0x80

-- The bytes of the white-space rune in front, 0 if there is none.
unfoldable pub space_width : Text → ℕ
unfolding ascii_space two_byte_space three_byte_space
space_width [] = 0
space_width (c ∷ []) = if ascii_space c then 1 else 0
space_width (c ∷ d ∷ []) = if ascii_space c then 1 else if two_byte_space c d then 2 else 0
space_width (c ∷ d ∷ e ∷ s) =
    if ascii_space c
    then 1
    else if two_byte_space c d
    then 2
    else if three_byte_space c d e
    then 3
    else 0

flush : Text → List Text → List Text
flush [] words = words
flush (c ∷ s) words = (c ∷ s) ∷ words

-- `skip` bytes of a white-space rune are still to be passed over, and `word` is what the word at
-- hand holds so far.
fields_loop : ℕ → Text → Text → List Text
unfolding flush space_width
fields_loop skip word [] = flush word []
fields_loop (suc k) word (c ∷ s) = fields_loop k word s
fields_loop zero word (c ∷ s) = elim (space_width (c ∷ s)) [
  | zero ↦ fields_loop zero (word ++ c ∷ []) s
  | suc w ↦ flush word (fields_loop w [] s)
]

unfoldable pub fields : Text → List Text
unfolding fields_loop
fields s = fields_loop 0 [] s

unfoldable pub join : Text → List Text → Text
join sep [] = []
join sep (s ∷ []) = s
join sep (s ∷ t ∷ ts) = s ++ sep ++ join sep (t ∷ ts)
