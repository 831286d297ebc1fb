-- ===== src/Natural/Tests.antt =====
-- The order at the inputs of sort_natural_test.go, and the theorems at concrete strings.
use majmun.Base.{◌≡◌, refl, true}
use majmun.Base.Text.{codes}
use majmun.Natural.{natural_less, extract_number, is_digit}
use majmun.Natural.Ranks.{ranks, ranks_less, natural_less-ranks}

channel_2 : natural_less (codes "Channel 2") (codes "Channel 10") ≡ true
unfolding natural_less extract_number is_digit
channel_2 = refl

-- A number past 64 bits counts as 0.
past_64_bits : natural_less (codes "C 99999999999999999999") (codes "C 1") ≡ true
unfolding natural_less extract_number is_digit
past_64_bits = refl

natural_less-ranks_example :
    natural_less (codes "a10") (codes "a9") ≡ ranks_less (ranks (codes "a10")) (ranks (codes "a9"))
natural_less-ranks_example = natural_less-ranks (codes "a10") (codes "a9")
