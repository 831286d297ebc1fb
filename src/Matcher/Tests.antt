-- ===== src/Matcher/Tests.antt =====
-- The priorities of a concrete group.
use majmun.Base.{ℕ, ◌≡◌, refl, none, some, List, [], ◌∷◌, arith, ◌≢◌}
use majmun.Base.Text.{codes, Text}
use majmun.Channel.{Channel, get_field_value}
use majmun.Rules.Config.{Regexp}
use majmun.Matcher.{new_priority}
use majmun.Samples.{channel, hd, empty_pattern}

abbrev hd_one : Channel
hd_one = channel (codes "a") (codes "HD One") 0

abbrev patterns : List Regexp
patterns = hd ∷ empty_pattern ∷ []

hd_first : new_priority none patterns hd_one ≡ some 2
unfolding new_priority get_field_value majmun.Base.Text.starts_with majmun.Base.Text.text_eq
hd_first = refl
