-- ===== src/M3u8/Printed.antt =====
-- The lines that a track is printed as, and what Encode writes for it.
use mathlib.Core.List.{append_assoc}
use majmun.Base.{
  ℕ, ◌≡◌, refl, ap, sym, ◌∙◌, Bool, true, false, Option, none, some, List, [], ◌∷◌, ◌++◌, map,
}
use majmun.Base.Lists.{All}
use majmun.Base.Maps.{Map, lookup}
use majmun.Base.Tests.{if◌then◌else◌}
use majmun.Base.Text.{Text}
use majmun.Channel.{Track}
use majmun.M3u8.Encoder.{
  M3uEncoder, println, print_lines, tag_line, keys, tag_lines, extinf_line, header_line,
  write_header, uri_part, encode_track, encode, already_closed, not_written, print_track,
}
use majmun.M3u8.Lined.{text_of, print_lines-text_of, append-line}
use majmun.M3u8.Tagged.{entry_line}
use majmun.Urlgen.Types.{Url}

pub text_of-append : (a b : List Text) → text_of (a ++ b) ≡ text_of a ++ text_of b
text_of-append [] b = refl
text_of-append (line ∷ a) b =
    ap (λ t. line ++ b'\n' ∷ t) (text_of-append a b)
    ∙ sym (append_assoc line (b'\n' ∷ text_of a) (text_of b))

abbrev pub uri_lines : Option Url → List Text
uri_lines none = []
uri_lines (some u) = u.string ∷ []

abbrev pub HasUri : Track → Type 0
HasUri t = (u : Url) × (t.uri ≡ some u)

module _ (sort : List Text → List Text) (show_length : ℕ → Text) where
  -- The tags in the order of the map, which is the sorted order.
  pub tag_lines-entry_line :
      (tags m : Map Text)
      → All (λ p. lookup p.0 tags ≡ some p.1) m
      → map (tag_line sort show_length tags) (keys sort show_length m) ≡ map entry_line m
  unfolding tag_line keys
  tag_lines-entry_line tags [] h = refl
  tag_lines-entry_line tags ((key, value) ∷ m) h =
      rw (h.0) (ap (λ ls. entry_line (key, value) ∷ ls) (tag_lines-entry_line tags m h.1))

  -- The lines of a track with an address.
  abbrev pub lines_with : Track → Option Url → List Text
  lines_with t u =
      extinf_line sort show_length t ∷ (tag_lines sort show_length t.tags ++ uri_lines u)

  abbrev pub track_lines : Track → List Text
  track_lines t = lines_with t t.uri

  abbrev pub all_lines : List Track → List Text
  all_lines [] = []
  all_lines (t ∷ ts) = track_lines t ++ all_lines ts

  -- What a fresh encoder writes.
  abbrev pub file_lines : Map Text → List Track → List Text
  file_lines attrs [] = []
  file_lines attrs (t ∷ ts) = header_line sort show_length attrs ∷ all_lines (t ∷ ts)

  module _ (accepts : Text → Text → Bool)
      (takes : (written line : Text) → accepts written line ≡ true) where
    abbrev pub Encodes : Track → M3uEncoder → List Text → Type 0
    Encodes t e lines =
        encode accepts sort show_length t e
        ≡ (record e { written = e.written ++ text_of lines; header_written = true }, none)

    println_lem :
        (line : Text) (e : M3uEncoder)
        → println accepts line e ≡ (record e { written = e.written ++ (line ++ b'\n' ∷ []) }, true)
    unfolding println
    println_lem line e = rw (takes e.written line) refl

    abbrev printed_lines : Track → M3uEncoder → M3uEncoder × Bool
    printed_lines t d =
        print_lines accepts (extinf_line sort show_length t ∷ tag_lines sort show_length t.tags) d

    printed_lines-text_of :
        (t : Track) (d : M3uEncoder)
        → printed_lines t d ≡ (
          record d {
            written =
                d.written
                ++ text_of (extinf_line sort show_length t ∷ tag_lines sort show_length t.tags);
          },
          true,
        )
    printed_lines-text_of t d =
        print_lines-text_of accepts
          (extinf_line sort show_length t ∷ tag_lines sort show_length t.tags) d takes

    pub joined :
        (before : Text) (a b : List Text)
        → (before ++ text_of a) ++ text_of b ≡ before ++ text_of (a ++ b)
    joined before a b =
        append_assoc before (text_of a) (text_of b)
        ∙ ap (λ t. before ++ t) (sym (text_of-append a b))

    text_of_last :
        (before : Text) (lines : List Text) (line : Text)
        → (before ++ text_of lines) ++ (line ++ b'\n' ∷ []) ≡ before ++ text_of (lines ++ line ∷ [])
    text_of_last before lines line = joined before lines (line ∷ [])

    print_track_lem :
        (t : Track) (u : Url) (d : M3uEncoder)
        → t.uri ≡ some u
        → print_track accepts sort show_length t d
          ≡ (record d { written = d.written ++ text_of (track_lines t) }, none)
    unfolding print_track uri_part
    print_track_lem t u d same =
        let lines = extinf_line sort show_length t ∷ tag_lines sort show_length t.tags in
        let f = record d { written = d.written ++ text_of lines } in
        ap
          (λ r.
            if r.1 then uri_part accepts sort show_length t.uri r.0 else (r.0, some not_written))
          (printed_lines-text_of t d)
        ∙ ap (λ o. uri_part accepts sort show_length o f) same
        ∙ ap (λ r. (r.0, if r.1 then none else some not_written)) (println_lem u.string f)
        ∙ ap (λ s. (record d { written = s }, none)) (text_of_last d.written lines u.string)
        ∙ ap (λ o. (record d { written = d.written ++ text_of (lines_with t o) }, none)) (sym same)

    -- The header, and then the track.
    encode_lem :
        (t : Track) (u : Url) (e d : M3uEncoder)
        → t.uri ≡ some u
        → e.closed ≡ false
        → write_header accepts sort show_length e ≡ (d, true)
        → encode accepts sort show_length t e
          ≡ (record d { written = d.written ++ text_of (track_lines t) }, none)
    unfolding encode encode_track
    encode_lem t u e d same opened headed =
        ap (λ c. if c then (e, some already_closed) else encode_track accepts sort show_length t e)
          opened
        ∙ ap
            (λ w.
              if w.1 then print_track accepts sort show_length t w.0 else (w.0, some not_written))
            headed
        ∙ print_track_lem t u d same

    -- Behind the header.
    pub encode-track_lines :
        (t : Track) (u : Url) (e : M3uEncoder)
        → t.uri ≡ some u
        → e.closed ≡ false
        → e.header_written ≡ true
        → Encodes t e (track_lines t)
    unfolding write_header
    encode-track_lines t u e same opened headed =
        encode_lem t u e e same opened (rw (headed, write_header) refl)
        ∙ ap
            (λ b. (
              record e { written = e.written ++ text_of (track_lines t); header_written = b },
              none,
            ))
            headed

    -- The header of an encoder.
    abbrev pub header_of : M3uEncoder → Text
    header_of e = header_line sort show_length e.header_attrs

    write_header_lem :
        (e : M3uEncoder)
        → e.header_written ≡ false
        → write_header accepts sort show_length e ≡ (
          record e { written = e.written ++ (header_of e ++ b'\n' ∷ []); header_written = true },
          true,
        )
    unfolding write_header
    write_header_lem e bare =
        let after : M3uEncoder × Bool → M3uEncoder × Bool =
          λ w. if w.1 then (record w.0 { header_written = true }, true) else (w.0, false) in
        ap (λ b. if b then (e, true) else after (println accepts (header_of e) e)) bare
        ∙ ap after (println_lem (header_of e) e)

    -- With the header in front.
    pub encode-header_line :
        (t : Track) (u : Url) (e : M3uEncoder)
        → t.uri ≡ some u
        → e.closed ≡ false
        → e.header_written ≡ false
        → Encodes t e (header_of e ∷ track_lines t)
    encode-header_line t u e same opened bare =
        let d = record e {
          written = e.written ++ (header_of e ++ b'\n' ∷ []);
          header_written = true;
        } in
        encode_lem t u e d same opened (write_header_lem e bare)
        ∙ ap (λ s. (record d { written = s }, none))
            (append-line (header_of e) e.written (text_of (track_lines t)))
