-- ===== src/M3u8/Lines.antt =====
-- bufio.Scanner with its lines and its limit, and strings.TrimSpace.
use majmun.Base.{ℕ, zero, suc, Bool, true, false, List, [], ◌∷◌, ◌++◌}
use majmun.Base.Lists.{length}
use majmun.Base.Tests.{ltb, ◌==◌, if◌then◌else◌}
use majmun.Base.Text.{Text}
use majmun.Base.Words.{space_width}

-- bufio.MaxScanTokenSize.
abbrev pub max_scan_token_size : ℕ
max_scan_token_size = 65_536

-- What is left to scan: the lines, and whether the scan ends with an error.
pub record Scanner : Type 0 where
  pub lines : List Text
  pub fails : Bool

unfoldable pub drop_cr : Text → Text
drop_cr [] = []
drop_cr (c ∷ []) = if c == b'\r' then [] else c ∷ []
drop_cr (c ∷ d ∷ s) = c ∷ drop_cr (d ∷ s)

-- A line that has been cut off; one that is too long ends the scan.
unfoldable pub add_line : Text → Scanner → Scanner
unfolding drop_cr
add_line line rest =
    if ltb (length line) max_scan_token_size
    then record rest { lines = drop_cr line ∷ rest.lines }
    else record { lines = []; fails = true }

-- A last line without a line feed counts if it is not empty.
last_line : Bool → Text → Scanner
unfolding add_line
last_line fails [] = record { lines = []; fails = fails }
last_line fails (c ∷ line) = add_line (c ∷ line) (record { lines = []; fails = fails })

-- The text, behind what the line at hand holds so far.
unfoldable pub scan_from : Bool → Text → Text → Scanner
unfolding add_line last_line
scan_from fails [] line = last_line fails line
scan_from fails (c ∷ s) line = elim (c == b'\n') [
  | true ↦ add_line line (scan_from fails s [])
  | false ↦ scan_from fails s (line ++ c ∷ [])
]

-- bufio.NewScanner on a reader that ends with an error or without one.
unfoldable pub new_scanner : Bool → Text → Scanner
unfolding scan_from
new_scanner fails s = scan_from fails s []

-- White space in front, of which `skip` bytes are still to be passed over.
trim_left : ℕ → Text → Text
trim_left skip [] = []
trim_left (suc k) (c ∷ s) = trim_left k s
trim_left zero (c ∷ s) = elim (space_width (c ∷ s)) [ zero ↦ c ∷ s | suc w ↦ trim_left w s ]

-- Is the text white space only?
is_blank_from : ℕ → Text → Bool
is_blank_from skip [] = true
is_blank_from (suc k) (c ∷ s) = is_blank_from k s
is_blank_from zero (c ∷ s) = elim (space_width (c ∷ s)) [ zero ↦ false | suc w ↦ is_blank_from w s ]

-- White space at the end.
trim_right : Text → Text
unfolding is_blank_from
trim_right [] = []
trim_right (c ∷ s) = elim (is_blank_from 0 (c ∷ s)) [ true ↦ [] | false ↦ c ∷ trim_right s ]

unfoldable pub trim_space : Text → Text
unfolding trim_left trim_right space_width
trim_space s = trim_right (trim_left 0 s)
