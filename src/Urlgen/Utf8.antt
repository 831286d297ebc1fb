-- ===== src/Urlgen/Utf8.antt =====
-- The strings that encoding/json keeps: it replaces what is no UTF-8. A byte that begins a character
-- fixes how many bytes follow it and the range of the next one.
use majmun.Base.{ℕ, zero, suc, ◌≡◌, Bool, true, false, ◌&&◌, Option, none, some, [], ◌∷◌}
use majmun.Base.Tests.{ltb, leb, ◌==◌, if◌then◌else◌}
use majmun.Base.Lists.{All}
use majmun.Base.Text.{Text}
use majmun.Urlgen.Types.{Stream, Data}

utf8_lead : ℕ → Option (ℕ × ℕ × ℕ)
utf8_lead b =
    if ltb b 128
    then some (0, 0, 0)
    else if ltb b 194
    then none
    else if ltb b 224
    then some (1, 128, 191)
    else if b == 224
    then some (2, 160, 191)
    else if b == 237
    then some (2, 128, 159)
    else if ltb b 240
    then some (2, 128, 191)
    else if b == 240
    then some (3, 144, 191)
    else if ltb b 244
    then some (3, 128, 191)
    else if b == 244
    then some (3, 128, 143)
    else none

utf8_loop : ℕ → ℕ → ℕ → Text → Bool
unfolding utf8_lead
utf8_loop zero low high [] = true
utf8_loop (suc n) low high [] = false
utf8_loop (suc n) low high (b ∷ s) =
    let rest = utf8_loop n 128 191 s in leb low b && (leb b high && rest)
utf8_loop zero low high (b ∷ s) = elim (utf8_lead b) [
  | none ↦ false
  | some (n, l, h) ↦ utf8_loop n l h s
]

unfoldable pub is_utf8 : Text → Bool
unfolding utf8_loop
is_utf8 s = utf8_loop 0 0 0 s

-- All strings of the data are UTF-8.
pub record IsUtf8 (d : Data) : Type 0 where
  pub channel_name : is_utf8 d.stream_data.channel_name ≡ true
  pub streams :
      All
        (λ (s : Stream). (is_utf8 s.url ≡ true) × (is_utf8 s.provider_info.provider_name ≡ true))
        d.stream_data.streams
  pub provider_name : is_utf8 d.file.provider_info.provider_name ≡ true
  pub url : is_utf8 d.file.url ≡ true
