-- ===== src/M3u8/Tests.antt =====
-- Two channels in a playlist file.
use majmun.Base.{
  ℕ, ◌≡◌, refl, Bool, true, false, Option, none, some, List, [], ◌∷◌, ◌++◌, inl, inr, arith, ◌⊎◌,
  ◌≢◌,
}
use majmun.Base.Insertion.{insertion_sort}
use majmun.Base.Lists.{All, any, length}
use majmun.Base.Maps.{Map, lookup, insert}
use majmun.Base.Tests.{ltb, ◌==◌, if◌then◌else◌}
use majmun.Base.Text.{Text, codes, text_eq, starts_with}
use majmun.Base.Words.{join}
use majmun.Channel.{Track}
use majmun.M3u8.Decoder.{number, eof, last_part, find_attrs, insert_all, cut_colon}
use majmun.M3u8.Encoder.{
  encode_all, new_encoder, header_line, attr_pair, extinf_line, tag_lines, tag_line, keys,
}
use majmun.M3u8.Extinf.{IsPrintable}
use majmun.M3u8.Lined.{IsLine}
use majmun.M3u8.Lines.{max_scan_token_size, new_scanner, trim_space, drop_cr}
use majmun.M3u8.Reading.{is_skipped, decode_all, new_decoder}
use majmun.M3u8.RoundTrip.{IsReadable, IsHeader, decode-encode}
use majmun.M3u8.Tagged.{IsAddress}
use majmun.Urlgen.Types.{Url}

abbrev text_less : Text → Text → Bool
text_less s [] = false
text_less [] (d ∷ t) = true
text_less (c ∷ s) (d ∷ t) =
    let rest = text_less s t in if ltb c d then true else if c == d then rest else false

abbrev sort_strings : List Text → List Text
sort_strings = insertion_sort text_less

-- The bits of 1.5, and of no other number.
abbrev one_and_a_half : ℕ
one_and_a_half = 4_609_434_218_613_702_656

abbrev show_length : ℕ → Text
show_length n = if n == one_and_a_half then codes "1.5" else codes "0"

abbrev parse_float : Text → Option ℕ
parse_float s = if text_eq s (codes "1.5") then some one_and_a_half else some 0

abbrev parse_url : Text → Option Url
parse_url s = some (record { scheme = codes "http"; host = codes "h"; string = s })

abbrev address : Text → Url
address s = record { scheme = codes "http"; host = codes "h"; string = s }

abbrev first_track : Track
first_track = record {
  name = codes "One";
  length = one_and_a_half;
  uri = some (address (codes "http://h/1"));
  attrs = (codes "tvg-id", codes "a,b") ∷ (codes "tvg-name", codes "1") ∷ [];
  tags = (codes "EXT-X-A", codes "c") ∷ (codes "EXTGRP", codes "g") ∷ [];
}

abbrev second_track : Track
second_track = record {
  name = codes "Two";
  length = one_and_a_half;
  uri = some (address (codes "http://h/2"));
  attrs = [];
  tags = [];
}

abbrev header_attrs : Map Text
header_attrs = (codes "url-tvg", codes "e") ∷ []

abbrev accepts : Text → Text → Bool
accepts written line = true

shows :
    (c : ℕ) (s : Text)
    → (c ≡ b' ') ⊎ (c ≡ b',')
    → number (show_length one_and_a_half ++ c ∷ s) ≡ some (show_length one_and_a_half, c ∷ s)
unfolding number
shows c s (inl same) = rw same refl
shows c s (inr same) = rw same refl

nonempty : (c : ℕ) (s : Text) → c ∷ s ≢ []
nonempty c s e = ground arith

unbroken : (s : Text) → any (λ c. c == b'\n') s ≡ false → All (λ c. (c == b'\n') ≡ false) s
unbroken [] h = tt
unbroken (c ∷ s) h = (ground arith, unbroken s (ground arith))

line :
    (s : Text)
    → any (λ c. c == b'\n') s ≡ false
    → ltb (length s) max_scan_token_size ≡ true
    → drop_cr s ≡ s
    → IsLine s
line s whole short no_cr = record { unbroken = unbroken s whole; short = short; no_cr = no_cr }

address_1-IsAddress : IsAddress parse_url (address (codes "http://h/1"))
unfolding is_skipped starts_with trim_space
address_1-IsAddress = record { parses = refl; filled = refl; plain = refl; trimmed = refl }

address_2-IsAddress : IsAddress parse_url (address (codes "http://h/2"))
unfolding is_skipped starts_with trim_space
address_2-IsAddress = record { parses = refl; filled = refl; plain = refl; trimmed = refl }

first-IsPrintable : IsPrintable sort_strings show_length parse_float first_track
unfolding trim_space last_part find_attrs insert_all attr_pair insert text_eq
first-IsPrintable = record {
  shows = shows;
  parses = refl;
  attrs = (
    (
      ((refl, (refl, (refl, (refl, (refl, (refl, tt)))))), nonempty _ _),
      (refl, (refl, (refl, tt))),
    ),
    (
      (
        ((refl, (refl, (refl, (refl, (refl, (refl, (refl, (refl, tt)))))))), nonempty _ _),
        (refl, tt),
      ),
      tt,
    ),
  );
  sorted = refl;
  rebuilt = refl;
  named = nonempty _ _;
  no_comma = refl;
  trimmed = refl;
  no_attrs = refl;
}

first-IsReadable : IsReadable sort_strings show_length parse_float parse_url first_track
unfolding trim_space extinf_line tag_lines keys tag_line join attr_pair lookup insert_all insert
    text_eq drop_cr cut_colon
first-IsReadable = record {
  printable = first-IsPrintable;
  trimmed = refl;
  tags = ((inl (codes "A", refl, refl), refl), ((inr (inl refl), refl), tt));
  sorted = refl;
  found = (refl, (refl, tt));
  rebuilt = refl;
  address = (address (codes "http://h/1"), refl, address_1-IsAddress);
  lines = (
    line _ refl refl refl,
    (line _ refl refl refl, (line _ refl refl refl, (line _ refl refl refl, tt))),
  );
}

second-IsPrintable : IsPrintable sort_strings show_length parse_float second_track
unfolding trim_space last_part find_attrs insert_all attr_pair insert text_eq
second-IsPrintable = record {
  shows = shows;
  parses = refl;
  attrs = tt;
  sorted = refl;
  rebuilt = refl;
  named = nonempty _ _;
  no_comma = refl;
  trimmed = refl;
  no_attrs = refl;
}

second-IsReadable : IsReadable sort_strings show_length parse_float parse_url second_track
unfolding trim_space extinf_line tag_lines keys tag_line join attr_pair lookup insert_all insert
    text_eq drop_cr cut_colon
second-IsReadable = record {
  printable = second-IsPrintable;
  trimmed = refl;
  tags = tt;
  sorted = refl;
  found = tt;
  rebuilt = refl;
  address = (address (codes "http://h/2"), refl, address_2-IsAddress);
  lines = (line _ refl refl refl, (line _ refl refl refl, tt));
}

header_line-IsHeader : IsHeader (header_line sort_strings show_length header_attrs)
unfolding trim_space header_line join attr_pair starts_with drop_cr
header_line-IsHeader = record { begins = refl; whole = line _ refl refl refl }

decode-encode_example :
    ((encode_all accepts sort_strings show_length
        (first_track ∷ second_track ∷ [])
        (new_encoder header_attrs)).1
      ≡ none)
    × (decode_all parse_float parse_url 3 (
          new_decoder (
            new_scanner false
              (encode_all accepts sort_strings show_length
                (first_track ∷ second_track ∷ [])
                (new_encoder header_attrs)).0.written))
        ≡ (first_track ∷ second_track ∷ [], some eof))
decode-encode_example =
    decode-encode sort_strings show_length parse_float parse_url accepts (λ written line. refl)
      header_attrs (first_track ∷ second_track ∷ []) header_line-IsHeader
      (first-IsReadable, (second-IsReadable, tt))
