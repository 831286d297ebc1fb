-- ===== src/M3u8/Reading.antt =====
-- internal/parser/m3u8/decoder.go: Decode, over the lines that are left.
use majmun.Base.{ℕ, zero, suc, Bool, true, false, not, ◌&&◌, Option, none, some, List, [], ◌∷◌}
use majmun.Base.Maps.{insert}
use majmun.Base.Result.{Result, ok, err}
use majmun.Base.Tests.{if◌then◌else◌}
use majmun.Base.Text.{Text, codes, starts_with}
use majmun.Channel.{Track}
use majmun.M3u8.Decoder.{
  Error, eof, bad_header, bad_url, bad_scan, parse_extinf_line, has_whitelisted_tag_prefix,
  parse_tags,
}
use majmun.M3u8.Lines.{Scanner, trim_space}
use majmun.Urlgen.Types.{Url}

pub record M3uDecoder : Type 0 where
  pub scanner : Scanner
  pub header : Bool
  pub done : Bool

-- A blank line, or a comment.
unfoldable pub is_skipped : Text → Bool
is_skipped [] = true
is_skipped (c ∷ s) = starts_with (codes "#") (c ∷ s) && not (starts_with (codes "#EXT") (c ∷ s))

unfoldable pub add_tag : Option (Text × Text) → Track → Track
add_tag none t = t
add_tag (some (key, value)) t = record t { tags = insert key value t.tags }

-- What the scan ends with.
unfoldable pub end_error : Bool → Error
end_error true = bad_scan
end_error false = eof

-- What a line does to the track at hand.
pub data Turn : Type 0 where
  goes_on : Option Track → Turn
  stops : Result Error Track → Turn

module _ (parse_float : Text → Option ℕ) (parse_url : Text → Option Url) where
  unfoldable pub uri_turn : Text → Track → Turn
  uri_turn line t = elim (parse_url line) [
    | none ↦ stops (err bad_url)
    | some u ↦ stops (ok (record t { uri = some u }))
  ]

  -- A line behind the start of a track.
  unfoldable pub track_turn : Text → Track → Turn
  unfolding add_tag uri_turn parse_tags
  track_turn line t =
      if has_whitelisted_tag_prefix line
      then goes_on (some (add_tag (parse_tags line) t))
      else if starts_with (codes "#") line
      then goes_on (some t)
      else uri_turn line t

  unfoldable pub line_turn : Text → Option Track → Turn
  unfolding track_turn is_skipped parse_extinf_line
  line_turn line track =
      if is_skipped line
      then goes_on track
      else if starts_with (codes "#EXTINF:") line
      then elim (parse_extinf_line parse_float line) [
        | err e ↦ stops (err e)
        | ok t ↦ goes_on (some t)
      ]
      else elim track [ none ↦ goes_on none | some t ↦ track_turn line t ]

  -- The loop over the lines; the lines that are left stand beside the result.
  unfoldable pub next_track : Bool → List Text → Option Track → Result Error Track × List Text
  unfolding end_error
  next_track fails [] track = (err (end_error fails), [])
  next_track fails (line ∷ lines) track = elim (line_turn (trim_space line) track) [
    | goes_on t ↦ next_track fails lines t
    | stops r ↦ (r, lines)
  ]

  unfoldable pub is_eof : Result Error Track → Bool
  is_eof (err eof) = true
  is_eof _ = false

  -- The tracks behind the header.
  unfoldable pub body : M3uDecoder → M3uDecoder × Result Error Track
  unfolding next_track is_eof
  body d =
      let (r, lines) = next_track d.scanner.fails d.scanner.lines none in
      (record { scanner = record d.scanner { lines = lines }; header = true; done = is_eof r }, r)

  unfoldable pub first_line : M3uDecoder → List Text → M3uDecoder × Result Error Track
  unfolding body end_error
  first_line d [] = (d, err (end_error d.scanner.fails))
  first_line d (line ∷ lines) =
      let e = record d { scanner = record d.scanner { lines = lines } } in
      if starts_with (codes "#EXTM3U") (trim_space line) then body e else (e, err bad_header)

  unfoldable pub decode : M3uDecoder → M3uDecoder × Result Error Track
  unfolding body first_line
  decode d =
      if d.done then (d, err eof) else if d.header then body d else first_line d d.scanner.lines

  -- Decode until it fails, at most `fuel` times: the tracks, and the error that ended it.
  unfoldable pub decode_all : ℕ → M3uDecoder → List Track × Option Error
  unfolding decode
  decode_all zero d = ([], none)
  decode_all (suc fuel) d =
      let (e, r) = decode d in
      elim r [ err x ↦ ([], some x) | ok t ↦ let (ts, x) = decode_all fuel e in (t ∷ ts, x) ]

unfoldable pub new_decoder : Scanner → M3uDecoder
new_decoder s = record { scanner = s; header = false; done = false }
