-- ===== src/Common.antt =====
-- internal/listing/common.go. `sha256` is sha256.Sum256, of which the program relies on the length
-- of its result.
use majmun.Base.{ℕ, ◌+◌, ◌-◌, ◌/◌, ◌%◌, Bool, ◌||◌, Option, none, some, List, [], ◌∷◌, ◌++◌, false}
use majmun.Base.Tests.{ltb, if◌then◌else◌}
use majmun.Base.Lists.{take}
use majmun.Base.Text.{Text, codes, text_eq}
use majmun.Urlgen.Types.{Url}

concat : List Text → Text
concat [] = []
concat (p ∷ ps) = p ++ concat ps

hex_digit : ℕ → ℕ
hex_digit n = if ltb n 10 then b'0' + n else b'a' + n - 10

-- The verb %x on bytes.
unfoldable pub hex : List ℕ → Text
unfolding hex_digit
hex [] = []
hex (b ∷ bs) = hex_digit (b / 16) ∷ hex_digit (b % 16) ∷ hex bs

unfoldable pub generate_hash_id : (Text → List ℕ) → List Text → Text
unfolding concat hex
generate_hash_id sha256 parts = hex (take 4 (sha256 (concat parts)))

-- `parse_url` is url.Parse.
unfoldable pub is_url : (Text → Option Url) → Text → Bool
is_url parse_url path = elim (parse_url path) [
  | none ↦ false
  | some u ↦ text_eq u.scheme (codes "http") || text_eq u.scheme (codes "https")
]
