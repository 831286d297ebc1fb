-- ===== src/M3u8/Extinf.antt =====
-- The EXTINF line of a track that can be printed is read back.
use mathlib.Core.List.{append-nil}
use majmun.Base.{
  ◌⊎◌, inl, inr, ℕ, ◌≡◌, ◌≢◌, refl, ap, ◌∙◌, true, false, Option, none, some, List, [], ◌∷◌, ◌++◌,
  map, arith,
}
use majmun.Base.Maps.{Map}
use majmun.Base.Result.{ok}
use majmun.Base.Text.{Text, codes, starts_with}
use majmun.Base.Words.{join}
use majmun.Channel.{Track}
use majmun.M3u8.Attrs.{AttrsArePrintable, read_pairs, last_part-append}
use majmun.M3u8.Decoder.{
  in_name, find_attrs, skip_spaces, last_part, number, extinf_here, find_extinf, insert_all,
  name_step, parse_extinf_line, title, is_name_char, is_space,
}
use majmun.M3u8.Encoder.{attr_pair, attrs_text, extinf_line, attr_pairs, name_text}
use majmun.M3u8.Lines.{trim_space}

-- A track whose EXTINF line can be read back.
pub record IsPrintable (sort : List Text → List Text) (show_length : ℕ → Text)
    (parse_float : Text → Option ℕ) (t : Track) : Type 0 where
  pub shows :
      (c : ℕ) (s : Text)
      → (c ≡ b' ') ⊎ (c ≡ b',')
      → number (show_length t.length ++ c ∷ s) ≡ some (show_length t.length, c ∷ s)
  pub parses : parse_float (show_length t.length) ≡ some t.length
  pub attrs : AttrsArePrintable t.attrs
  pub sorted : sort (map attr_pair t.attrs) ≡ map attr_pair t.attrs
  pub rebuilt : insert_all t.attrs [] ≡ t.attrs
  pub named : t.name ≢ []
  pub no_comma : last_part t.name ≡ none
  pub trimmed : trim_space t.name ≡ t.name
  pub no_attrs : find_attrs (in_name []) t.name ≡ []

name_char-is_space : (c : ℕ) → is_name_char c ≡ true → is_space c ≡ false
name_char-is_space c h = ground arith

-- What stands behind the number.
abbrev content : Map Text → Text → Text
content [] name = b',' ∷ name
content (a ∷ m) name = join (codes " ") (map attr_pair (a ∷ m)) ++ b',' ∷ name

skip_spaces-content :
    (m : Map Text) (name : Text)
    → AttrsArePrintable m
    → skip_spaces (content m name) ≡ content m name
unfolding skip_spaces attr_pair join
skip_spaces-content [] name h = refl
skip_spaces-content (([], value) ∷ m) name h = absurd (h.0.0.1 refl)
skip_spaces-content ((c ∷ key, value) ∷ []) name h =
    rw (name_char-is_space c h.0.0.0.0, skip_spaces) refl
skip_spaces-content ((c ∷ key, value) ∷ p ∷ m) name h =
    rw (name_char-is_space c h.0.0.0.0, skip_spaces) refl

find_attrs-content :
    (m : Map Text) (name : Text)
    → AttrsArePrintable m
    → find_attrs (in_name []) name ≡ []
    → find_attrs (in_name []) (content m name) ≡ m
unfolding find_attrs name_step
find_attrs-content [] name h none_there = none_there
find_attrs-content (a ∷ m) name h none_there =
    read_pairs (a ∷ m) name h ∙ ap (λ t. a ∷ m ++ t) none_there ∙ append-nil (a ∷ m)

last_part-content :
    (m : Map Text) (name : Text) → last_part name ≡ none → last_part (content m name) ≡ some name
last_part-content [] name h = last_part-append [] name h
last_part-content (a ∷ m) name h =
    last_part-append (join (codes " ") (map attr_pair (a ∷ m))) name h

module _ (sort : List Text → List Text) (show_length : ℕ → Text)
    (parse_float : Text → Option ℕ) where
  -- What is printed behind the number begins with a space or a comma.
  gap_lem :
      (m : Map Text) (name : Text)
      → AttrsArePrintable m
      → sort (map attr_pair m) ≡ map attr_pair m
      → name ≢ []
      → (c : ℕ) × (s : Text) × (attrs_text sort show_length m ++ name_text sort show_length name
          ≡ c ∷ s)
        × ((c ≡ b' ') ⊎ (c ≡ b','))
        × (skip_spaces (c ∷ s) ≡ content m name)
  unfolding attrs_text name_text attr_pairs skip_spaces
  gap_lem m [] h sorted named = absurd (named refl)
  gap_lem [] (d ∷ name) h sorted named = (b',', d ∷ name, refl, inr refl, refl)
  gap_lem (a ∷ m) (d ∷ name) h sorted named = (
    b' ',
    content (a ∷ m) (d ∷ name),
    ap (λ ps. b' ' ∷ (join (codes " ") ps ++ b',' ∷ d ∷ name)) sorted,
    inl refl,
    skip_spaces-content (a ∷ m) (d ∷ name) h,
  )

  find_extinf-extinf_line :
      (t : Track)
      → IsPrintable sort show_length parse_float t
      → find_extinf (extinf_line sort show_length t)
        ≡ some (show_length t.length, content t.attrs t.name)
  unfolding find_extinf extinf_here extinf_line starts_with
  find_extinf-extinf_line t p =
      let (c, s, gap, separates, skipped) = gap_lem t.attrs t.name p.attrs p.sorted p.named in
      let read : number (
            show_length t.length
            ++ (attrs_text sort show_length t.attrs ++ name_text sort show_length t.name))
          ≡ some (show_length t.length, c ∷ s) =
        ap (λ g. number (show_length t.length ++ g)) gap ∙ p.shows c s separates in
      rw (read, find_extinf, extinf_here) (ap (λ x. some (show_length t.length, x)) skipped)

  pub parse_extinf_line-extinf_line :
      (t : Track)
      → IsPrintable sort show_length parse_float t
      → parse_extinf_line parse_float (extinf_line sort show_length t)
        ≡ ok (record t { uri = none; tags = [] })
  unfolding parse_extinf_line title
  parse_extinf_line-extinf_line t p =
      let found = find_extinf-extinf_line t p in
      let attrs = find_attrs-content t.attrs t.name p.attrs p.no_attrs in
      let part = last_part-content t.attrs t.name p.no_comma in
      rw (found, parse_extinf_line)
        (rw (p.parses) (rw attrs (rw (p.rebuilt) (rw (part, title) (rw (p.trimmed) refl)))))
