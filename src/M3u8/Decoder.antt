-- ===== src/M3u8/Decoder.antt =====
-- internal/parser/m3u8/decoder.go. `parse_float` is strconv.ParseFloat to the bits of a float64, and
-- `parse_url` is url.Parse. The two regular expressions are read by hand.
use majmun.Base.{ℕ, Bool, true, false, ◌&&◌, ◌||◌, Option, none, some, List, [], ◌∷◌, ◌++◌}
use majmun.Base.Lists.{length, drop, any}
use majmun.Base.Maps.{Map, insert}
use majmun.Base.Result.{Result, ok, err}
use majmun.Base.Tests.{leb, ◌==◌, if◌then◌else◌}
use majmun.Base.Text.{Text, codes, starts_with, text_eq}
use majmun.Channel.{Track}
use majmun.M3u8.Lines.{trim_space}

pub data Error : Type 0 where
  eof bad_header bad_extinf bad_duration bad_url bad_scan : Error

abbrev pub whitelisted_tag_prefixes : List Text
whitelisted_tag_prefixes =
    codes "#EXT-X-"
    ∷ codes "#EXTGRP:"
    ∷ codes "#EXTBYT:"
    ∷ codes "#EXTSIZE:"
    ∷ codes "#EXTBIN:"
    ∷ codes "#EXTVLCOPT:"
    ∷ []

abbrev pub is_digit : ℕ → Bool
is_digit c = leb b'0' c && leb c b'9'

-- [a-zA-Z0-9_-]
abbrev pub is_name_char : ℕ → Bool
is_name_char c =
    leb b'a' c && leb c b'z' || leb b'A' c && leb c b'Z' || is_digit c || c == b'_' || c == b'-'

-- \s
abbrev pub is_space : ℕ → Bool
is_space c = c == b'\t' || c == b'\n' || c == 12 || c == b'\r' || c == b' '

-- \d*, as what it matches and what is left.
unfoldable pub digits : Text → Text × Text
digits [] = ([], [])
digits (c ∷ s) = let (d, rest) = digits s in if is_digit c then (c ∷ d, rest) else ([], c ∷ s)

fraction : Text → Text → Text × Text
unfolding digits
fraction whole [] = (whole, [])
fraction whole (c ∷ s) =
    let (d, rest) = digits s in
    elim d [
      | [] ↦ (whole, c ∷ s)
      | e ∷ d' ↦ if c == b'.' then (whole ++ b'.' ∷ e ∷ d', rest) else (whole, c ∷ s)
    ]

positive : Text → Option (Text × Text)
unfolding digits fraction
positive s =
    let (d, rest) = digits s in elim d [ [] ↦ none | c ∷ d' ↦ some (fraction (c ∷ d') rest) ]

-- -?\d+(\.\d+)?
unfoldable pub number : Text → Option (Text × Text)
unfolding positive
number [] = none
number (c ∷ s) =
    if c == b'-'
    then elim (positive s) [ none ↦ none | some r ↦ some (c ∷ r.0, r.1) ]
    else positive (c ∷ s)

unfoldable pub skip_spaces : Text → Text
skip_spaces [] = []
skip_spaces (c ∷ s) = let rest = skip_spaces s in if is_space c then rest else c ∷ s

-- extinfRegex at the front of a text: the number, and what follows it.
unfoldable pub extinf_here : Text → Option (Text × Text)
unfolding number
extinf_here s =
    if starts_with (codes "#EXTINF:") s
    then elim (number (drop 8 s)) [ none ↦ none | some r ↦ some (r.0, skip_spaces r.1) ]
    else none

-- The leftmost match of extinfRegex.
unfoldable pub find_extinf : Text → Option (Text × Text)
find_extinf [] = none
find_extinf (c ∷ s) =
    let later = find_extinf s in elim (extinf_here (c ∷ s)) [ none ↦ later | some r ↦ some r ]

-- How far attrRegex has come: in a name, behind its equals sign, or in the value.
pub data Place : Type 0 where
  in_name : Text → Place
  behind_equals : Text → Place
  in_value : Text → Text → Place

unfoldable pub name_step : Text → ℕ → Place
name_step [] c = if is_name_char c then in_name (c ∷ []) else in_name []
name_step (d ∷ name) c =
    if is_name_char c
    then in_name (d ∷ (name ++ c ∷ []))
    else if c == b'='
    then behind_equals (d ∷ name)
    else in_name []

-- attrRegex.FindAllStringSubmatch: the names with their values. A value that is not closed leaves no
-- quote behind it, so that nothing matches there.
unfoldable pub find_attrs : Place → Text → List (Text × Text)
unfolding name_step
find_attrs place [] = []
find_attrs (in_name name) (c ∷ s) = find_attrs (name_step name c) s
find_attrs (behind_equals name) (c ∷ s) =
    find_attrs (if c == b'"' then in_value name [] else name_step [] c) s
find_attrs (in_value name value) (c ∷ s) = elim (c == b'"') [
  | true ↦ (name, value) ∷ find_attrs (in_name []) s
  | false ↦ find_attrs (in_value name (value ++ c ∷ [])) s
]

unfoldable pub insert_all : List (Text × Text) → Map Text → Map Text
insert_all [] m = m
insert_all ((key, value) ∷ pairs) m = insert_all pairs (insert key value m)

-- The part behind the last comma, if there is a comma.
unfoldable pub last_part : Text → Option Text
last_part [] = none
last_part (c ∷ s) = elim (last_part s) [
  | some part ↦ some part
  | none ↦ if c == b',' then some s else none
]

unfoldable pub title : Text → List (Text × Text) → Text
unfolding last_part trim_space
title content attrs = elim (last_part content) [
  | some part ↦ trim_space part
  | none ↦ elim attrs [ [] ↦ trim_space content | a ∷ more ↦ [] ]
]

module _ (parse_float : Text → Option ℕ) where
  unfoldable pub parse_extinf_line : Text → Result Error Track
  unfolding find_extinf title insert_all
  parse_extinf_line line = elim (find_extinf line) [
    | none ↦ err bad_extinf
    | some (duration, content) ↦ elim (parse_float duration) [
      | none ↦ err bad_duration
      | some length ↦
          let attrs = find_attrs (in_name []) content in
          ok (record {
            name = title content attrs;
            length = length;
            uri = none;
            attrs = insert_all attrs [];
            tags = [];
          })
    ]
  ]

unfoldable pub has_whitelisted_tag_prefix : Text → Bool
has_whitelisted_tag_prefix line = any (λ prefix. starts_with prefix line) whitelisted_tag_prefixes

-- strings.SplitN(line, ":", 2).
unfoldable pub cut_colon : Text → Option (Text × Text)
cut_colon [] = none
cut_colon (c ∷ s) =
    let later = cut_colon s in
    if c == b':' then some ([], s) else elim later [ none ↦ none | some r ↦ some (c ∷ r.0, r.1) ]

drop_last : Text → Text
drop_last [] = []
drop_last (c ∷ []) = []
drop_last (c ∷ d ∷ s) = c ∷ drop_last (d ∷ s)

-- A key and its value by one prefix, if they are found.
unfoldable pub tag_by_prefix : Text → Text → Option (Text × Text)
unfolding cut_colon drop_last
tag_by_prefix prefix line =
    if text_eq prefix (codes "#EXT-X-")
    then elim (cut_colon line) [ none ↦ none | some r ↦ some (drop 1 r.0, r.1) ]
    else some (drop 1 (drop_last prefix), drop (length prefix) line)

unfoldable pub tags_loop : List Text → Text → Option (Text × Text)
unfolding tag_by_prefix
tags_loop [] line = none
tags_loop (prefix ∷ prefixes) line =
    let rest = tags_loop prefixes line in
    if starts_with prefix line
    then elim (tag_by_prefix prefix line) [
      | none ↦ rest
      | some (key, value) ↦ elim key [ [] ↦ rest | c ∷ k ↦ some (c ∷ k, value) ]
    ]
    else rest

-- The map of parseTags has at most one entry.
unfoldable pub parse_tags : Text → Option (Text × Text)
unfolding tags_loop
parse_tags line = tags_loop whitelisted_tag_prefixes line
