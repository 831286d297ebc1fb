-- ===== src/M3u8/Lined.antt =====
-- The lines that are printed are the lines that are scanned.
use mathlib.Core.List.{append-nil, append_assoc}
use majmun.Base.{◌≡◌, refl, ap, sym, ◌∙◌, Bool, true, false, List, [], ◌∷◌, ◌++◌}
use majmun.Base.Lists.{All, length}
use majmun.Base.Tests.{ltb, ◌==◌}
use majmun.Base.Text.{Text}
use majmun.M3u8.Encoder.{M3uEncoder, println, print_lines}
use majmun.M3u8.Lines.{max_scan_token_size, drop_cr, add_line, scan_from, new_scanner}

-- A line that the scanner returns as it is.
pub record IsLine (line : Text) : Type 0 where
  pub unbroken : All (λ c. (c == b'\n') ≡ false) line
  pub short : ltb (length line) max_scan_token_size ≡ true
  pub no_cr : drop_cr line ≡ line

abbrev pub text_of : List Text → Text
text_of [] = []
text_of (line ∷ lines) = line ++ b'\n' ∷ text_of lines

scan_line :
    (line so_far rest : Text)
    → All (λ c. (c == b'\n') ≡ false) line
    → scan_from false (line ++ b'\n' ∷ rest) so_far
      ≡ add_line (so_far ++ line) (scan_from false rest [])
unfolding scan_from
scan_line [] so_far rest h =
    ap (λ t. add_line t (scan_from false rest [])) (sym (append-nil so_far))
scan_line (c ∷ line) so_far rest h =
    rw (h.0, scan_from) (scan_line line (so_far ++ c ∷ []) rest h.1)
    ∙ ap (λ t. add_line t (scan_from false rest [])) (append_assoc so_far (c ∷ []) line)

add_line-IsLine :
    (line : Text) (lines : List Text)
    → IsLine line
    → add_line line (record { lines = lines; fails = false })
      ≡ record { lines = line ∷ lines; fails = false }
unfolding add_line
add_line-IsLine line lines h = rw (h.short, add_line) (rw (h.no_cr) refl)

pub new_scanner-text_of :
    (lines : List Text)
    → All IsLine lines
    → new_scanner false (text_of lines) ≡ record { lines = lines; fails = false }
unfolding new_scanner scan_from
new_scanner-text_of [] h = refl
new_scanner-text_of (line ∷ lines) h =
    scan_line line [] (text_of lines) h.0.unbroken
    ∙ ap (add_line line) (new_scanner-text_of lines h.1)
    ∙ add_line-IsLine line lines h.0

-- A line and its line feed, between two texts.
pub append-line :
    (line before behind : Text)
    → (before ++ (line ++ b'\n' ∷ [])) ++ behind ≡ before ++ (line ++ b'\n' ∷ behind)
append-line line before behind =
    append_assoc before (line ++ b'\n' ∷ []) behind
    ∙ ap (λ t. before ++ t) (append_assoc line (b'\n' ∷ []) behind)

pub print_lines-text_of :
    (accepts : Text → Text → Bool) (lines : List Text) (e : M3uEncoder)
    → ((written line : Text) → accepts written line ≡ true)
    → print_lines accepts lines e ≡ (record e { written = e.written ++ text_of lines }, true)
unfolding print_lines println
print_lines-text_of accepts [] e h =
    ap (λ t. (record e { written = t }, true)) (sym (append-nil e.written))
print_lines-text_of accepts (line ∷ lines) e h =
    let f = record e { written = e.written ++ (line ++ b'\n' ∷ []) } in
    rw (h e.written line, print_lines, println) (print_lines-text_of accepts lines f h)
    ∙ ap (λ t. (record e { written = t }, true)) (append-line line e.written (text_of lines))
