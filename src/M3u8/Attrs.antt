-- ===== src/M3u8/Attrs.antt =====
-- What the decoder reads of an EXTINF line that the encoder wrote.
use mathlib.Core.List.{append-nil, append_assoc}
use majmun.Base.{◌≡◌, ◌≢◌, refl, ap, ◌∙◌, true, false, none, some, [], ◌∷◌, ◌++◌, map}
use majmun.Base.Lists.{All}
use majmun.Base.Maps.{Map}
use majmun.Base.Tests.{◌==◌}
use majmun.Base.Text.{Text, codes}
use majmun.Base.Words.{join}
use majmun.M3u8.Decoder.{in_name, in_value, name_step, find_attrs, is_name_char, last_part}
use majmun.M3u8.Encoder.{attr_pair}

abbrev pub IsName : Text → Type 0
IsName s = All (λ c. is_name_char c ≡ true) s × (s ≢ [])

abbrev pub IsUnquoted : Text → Type 0
IsUnquoted s = All (λ c. (c == b'"') ≡ false) s

read_name :
    (key name rest : Text)
    → All (λ c. is_name_char c ≡ true) key
    → find_attrs (in_name name) (key ++ rest) ≡ find_attrs (in_name (name ++ key)) rest
unfolding find_attrs name_step
read_name [] name rest h = rw append-nil refl
read_name (c ∷ key) [] rest h = rw (h.0, find_attrs) (read_name key (c ∷ []) rest h.1)
read_name (c ∷ key) (d ∷ name) rest h =
    rw (h.0, find_attrs) (read_name key (d ∷ (name ++ c ∷ [])) rest h.1)
    ∙ ap (λ n. find_attrs (in_name (d ∷ n)) rest) (append_assoc name (c ∷ []) key)

read_value :
    (name value s rest : Text)
    → IsUnquoted s
    → find_attrs (in_value name value) (s ++ b'"' ∷ rest)
      ≡ (name, value ++ s) ∷ find_attrs (in_name []) rest
unfolding find_attrs
read_value name value [] rest h = rw append-nil refl
read_value name value (c ∷ s) rest h =
    rw (h.0, find_attrs) (read_value name (value ++ c ∷ []) s rest h.1)
    ∙ ap (λ v. (name, v) ∷ find_attrs (in_name []) rest) (append_assoc value (c ∷ []) s)

read_pair :
    (key value rest : Text)
    → IsName key
    → IsUnquoted value
    → find_attrs (in_name []) (attr_pair (key, value) ++ rest)
      ≡ (key, value) ∷ find_attrs (in_name []) rest
unfolding attr_pair find_attrs name_step
read_pair [] value rest name unquoted = absurd (name.1 refl)
read_pair (c ∷ key) value rest name unquoted =
    ap (find_attrs (in_name [])) (
      append_assoc (c ∷ key) (b'=' ∷ b'"' ∷ (value ++ b'"' ∷ [])) rest
      ∙ ap (λ t. (c ∷ key) ++ (b'=' ∷ b'"' ∷ t)) (append_assoc value (b'"' ∷ []) rest))
    ∙ read_name (c ∷ key) [] (b'=' ∷ b'"' ∷ (value ++ b'"' ∷ rest)) name.0
    ∙ read_value (c ∷ key) [] value rest unquoted

pub last_part-append :
    (s name : Text) → last_part name ≡ none → last_part (s ++ b',' ∷ name) ≡ some name
unfolding last_part
last_part-append [] name h = rw (h, last_part) refl
last_part-append (c ∷ s) name h = rw (last_part-append s name h, last_part) refl

-- The attributes of a track, in the order in which they are printed.
abbrev pub AttrsArePrintable : Map Text → Type 0
AttrsArePrintable m = All (λ p. IsName p.0 × IsUnquoted p.1) m

-- After the attributes the machine stands where it began.
pub read_pairs :
    (m : Map Text) (rest : Text)
    → AttrsArePrintable m
    → find_attrs (in_name []) (join (codes " ") (map attr_pair m) ++ b',' ∷ rest)
      ≡ m ++ find_attrs (in_name []) rest
unfolding join find_attrs name_step
read_pairs [] rest h = refl
read_pairs ((key, value) ∷ []) rest h = read_pair key value (b',' ∷ rest) h.0.0 h.0.1
read_pairs ((key, value) ∷ p ∷ m) rest h =
    ap (find_attrs (in_name [])) (
      append_assoc (attr_pair (key, value) ++ codes " ") (join (codes " ") (map attr_pair (p ∷ m)))
        (b',' ∷ rest)
      ∙ append_assoc (attr_pair (key, value)) (codes " ")
          (join (codes " ") (map attr_pair (p ∷ m)) ++ b',' ∷ rest))
    ∙ read_pair key value (b' ' ∷ (join (codes " ") (map attr_pair (p ∷ m)) ++ b',' ∷ rest)) h.0.0
        h.0.1
    ∙ ap (λ t. (key, value) ∷ t) (read_pairs (p ∷ m) rest h.1)
