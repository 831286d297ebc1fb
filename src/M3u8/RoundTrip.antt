-- ===== src/M3u8/RoundTrip.antt =====
-- A playlist that the encoder wrote is decoded to the tracks it was written for.
use mathlib.Core.List.{append_assoc}
use majmun.Base.{
  ℕ, suc, ◌≡◌, refl, ap, sym, ◌∙◌, Bool, true, false, Option, none, some, List, [], ◌∷◌, ◌++◌, map,
}
use majmun.Base.Lists.{All, All-append, length}
use majmun.Base.Maps.{Map, lookup}
use majmun.Base.Result.{Result, ok, err}
use majmun.Base.Tests.{if◌then◌else◌}
use majmun.Base.Text.{Text, codes, starts_with}
use majmun.Channel.{Track}
use majmun.M3u8.Decoder.{Error, eof, bad_header, insert_all}
use majmun.M3u8.Encoder.{
  keys, tag_lines, tag_line, extinf_line, header_line, encode_all, new_encoder,
}
use majmun.M3u8.Extinf.{IsPrintable, parse_extinf_line-extinf_line}
use majmun.M3u8.Lined.{IsLine, new_scanner-text_of}
use majmun.M3u8.Lines.{new_scanner, trim_space}
use majmun.M3u8.Printed.{
  tag_lines-entry_line, lines_with, track_lines, all_lines, file_lines, HasUri,
}
use majmun.M3u8.Written.{encode_all-new_encoder}
use majmun.M3u8.Reading.{
  M3uDecoder, goes_on, stops, is_skipped, line_turn, next_track, body, first_line, is_eof,
  end_error, decode, decode_all, new_decoder,
}
use majmun.M3u8.Tagged.{
  entry_line, IsTrimmed, TagsArePrintable, IsAddress, next_track_goes_on, next_track-tags,
}
use majmun.Urlgen.Types.{Url}

-- A track that can be read back.
pub record IsReadable (sort : List Text → List Text) (show_length : ℕ → Text)
    (parse_float : Text → Option ℕ) (parse_url : Text → Option Url) (t : Track) : Type 0 where
  pub printable : IsPrintable sort show_length parse_float t
  pub trimmed : IsTrimmed (extinf_line sort show_length t)
  pub tags : TagsArePrintable t.tags
  pub sorted : sort (keys sort show_length t.tags) ≡ keys sort show_length t.tags
  pub found : All (λ p. lookup p.0 t.tags ≡ some p.1) t.tags
  pub rebuilt : insert_all t.tags [] ≡ t.tags
  pub address : (u : Url) × (t.uri ≡ some u) × IsAddress parse_url u
  pub lines : All IsLine (track_lines sort show_length t)

-- A header that can be read back.
pub record IsHeader (line : Text) : Type 0 where
  pub begins : starts_with (codes "#EXTM3U") (trim_space line) ≡ true
  pub whole : IsLine line

module _ (sort : List Text → List Text) (show_length : ℕ → Text) (parse_float : Text → Option ℕ)
    (parse_url : Text → Option Url) where
  abbrev IsRead : Track → Type 0
  IsRead t = IsReadable sort show_length parse_float parse_url t

  extinf_turn :
      (t : Track)
      → IsPrintable sort show_length parse_float t
      → line_turn parse_float parse_url (extinf_line sort show_length t) none
        ≡ goes_on (some (record t { uri = none; tags = [] }))
  unfolding line_turn is_skipped starts_with extinf_line
  extinf_turn t p =
      ap (λ r. elim r [ err e ↦ stops (err e) | ok u ↦ goes_on (some u) ])
        (parse_extinf_line-extinf_line sort show_length parse_float t p)

  tag_lines_lem : (t : Track) → IsRead t → tag_lines sort show_length t.tags ≡ map entry_line t.tags
  unfolding tag_lines
  tag_lines_lem t h =
      ap (map (tag_line sort show_length t.tags)) h.sorted
      ∙ tag_lines-entry_line sort show_length t.tags t.tags h.found

  track_lines_lem :
      (t : Track) (rest : List Text)
      → (h : IsRead t)
      → track_lines sort show_length t ++ rest
        ≡ extinf_line sort show_length t ∷ (map entry_line t.tags ++ (h.address.0.string ∷ rest))
  track_lines_lem t rest h =
      let u = h.address.0 in
      ap (λ o. lines_with sort show_length t o ++ rest) h.address.1
      ∙ ap (λ ls. extinf_line sort show_length t ∷ ((ls ++ u.string ∷ []) ++ rest))
          (tag_lines_lem t h)
      ∙ ap (λ ls. extinf_line sort show_length t ∷ ls)
          (append_assoc (map entry_line t.tags) (u.string ∷ []) rest)

  next_track-track_lines :
      (t : Track) (rest : List Text)
      → IsRead t
      → next_track parse_float parse_url false (track_lines sort show_length t ++ rest) none
        ≡ (ok t, rest)
  next_track-track_lines t rest h =
      ap (λ lines. next_track parse_float parse_url false lines none) (track_lines_lem t rest h)
      ∙ next_track_goes_on parse_float parse_url false
          (map entry_line t.tags ++ (h.address.0.string ∷ rest)) (extinf_line sort show_length t)
          h.trimmed none (some (record t { uri = none; tags = [] })) (extinf_turn t h.printable)
      ∙ next_track-tags parse_float parse_url false h.address.0 h.address.2 rest t.tags
          (record t { uri = none; tags = [] }) h.tags
      ∙ ap (λ m. (ok (record t { uri = some h.address.0; tags = m }), rest)) h.rebuilt
      ∙ ap (λ o. (ok (record t { uri = o }), rest)) (sym h.address.1)

  -- The decoder behind the header.
  abbrev behind : List Text → M3uDecoder
  behind lines = record {
    scanner = record { lines = lines; fails = false };
    header = true;
    done = false;
  }

  decode_all-all_lines :
      (ts : List Track)
      → All IsRead ts
      → decode_all parse_float parse_url (suc (length ts)) (behind (all_lines sort show_length ts))
        ≡ (ts, some eof)
  unfolding decode_all decode body next_track end_error is_eof
  decode_all-all_lines [] h = refl
  decode_all-all_lines (t ∷ ts) h =
      let step : Result Error Track × List Text → List Track × Option Error = λ w. elim w.0 [
        | err x ↦ ([], some x)
        | ok u ↦
            (let e = record (behind w.1) { done = is_eof parse_float parse_url w.0 } in
              let (us, x) = decode_all parse_float parse_url (suc (length ts)) e in (u ∷ us, x))
      ] in
      ap step (next_track-track_lines t (all_lines sort show_length ts) h.0)
      ∙ ap (λ r. (t ∷ r.0, r.1)) (decode_all-all_lines ts h.1)

  -- What the decoder makes of the lines of a file.
  decode_all-file_lines :
      (attrs : Map Text) (ts : List Track)
      → IsHeader (header_line sort show_length attrs)
      → All IsRead ts
      → decode_all parse_float parse_url
          (suc (length ts))
          (new_decoder (record { lines = file_lines sort show_length attrs ts; fails = false }))
        ≡ (ts, some eof)
  unfolding decode_all decode first_line end_error new_decoder
  decode_all-file_lines attrs [] header h = refl
  decode_all-file_lines attrs (t ∷ ts) header h =
      let d = behind (all_lines sort show_length (t ∷ ts)) in
      let step : M3uDecoder × Result Error Track → List Track × Option Error = λ w. elim w.1 [
        | err x ↦ ([], some x)
        | ok u ↦
            (let (us, x) = decode_all parse_float parse_url (suc (length ts)) w.0 in (u ∷ us, x))
      ] in
      ap
        (λ b. step (
          if b
          then body parse_float parse_url (record d { header = false })
          else (record d { header = false }, err bad_header)))
        header.begins
      ∙ decode_all-all_lines (t ∷ ts) h

  file_lines-IsLine :
      (attrs : Map Text) (ts : List Track)
      → IsHeader (header_line sort show_length attrs)
      → All IsRead ts
      → All IsLine (file_lines sort show_length attrs ts)
  file_lines-IsLine attrs [] header h = tt
  file_lines-IsLine attrs (t ∷ ts) header h = (header.whole, all_lines-IsLine (t ∷ ts) h)
    where
      all_lines-IsLine :
          (ts : List Track) → All IsRead ts → All IsLine (all_lines sort show_length ts)
      all_lines-IsLine [] h = tt
      all_lines-IsLine (t ∷ ts) h =
          All-append IsLine (track_lines sort show_length t) (all_lines sort show_length ts)
            h.0.lines (all_lines-IsLine ts h.1)

  readable-HasUri : (ts : List Track) → All IsRead ts → All HasUri ts
  readable-HasUri [] h = tt
  readable-HasUri (t ∷ ts) h = ((h.0.address.0, h.0.address.1), readable-HasUri ts h.1)

  module _ (accepts : Text → Text → Bool)
      (takes : (written line : Text) → accepts written line ≡ true) where
    -- If each track and the header can be read back (IsReadable, IsHeader) and the writer takes every
    -- line, Encode succeeds for all of the tracks, and Decode, called once more than there are tracks,
    -- returns exactly these tracks in their order and then the end of the file.
    pub decode-encode :
        (attrs : Map Text) (ts : List Track)
        → IsHeader (header_line sort show_length attrs)
        → All IsRead ts
        → ((encode_all accepts sort show_length ts (new_encoder attrs)).1 ≡ none)
          × (decode_all parse_float parse_url (suc (length ts)) (
                new_decoder (
                  new_scanner false
                    (encode_all accepts sort show_length ts (new_encoder attrs)).0.written))
              ≡ (ts, some eof))
    decode-encode attrs ts header h =
        let (e, encoded, written) =
          encode_all-new_encoder sort show_length accepts takes attrs ts (readable-HasUri ts h) in
        let read : Text → List Track × Option Error = λ s.
          decode_all parse_float parse_url (suc (length ts)) (new_decoder (new_scanner false s)) in
        (
          ap (λ r. r.1) encoded,
          ap (λ r. read r.0.written) encoded
              ∙ ap read written
              ∙ ap (λ s. decode_all parse_float parse_url (suc (length ts)) (new_decoder s))
                  (new_scanner-text_of (file_lines sort show_length attrs ts)
                    (file_lines-IsLine attrs ts header h))
              ∙ decode_all-file_lines attrs ts header h,
        )
