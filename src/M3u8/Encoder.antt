-- ===== src/M3u8/Encoder.antt =====
-- internal/parser/m3u8/encoder.go. `show_length` is the verb %.6g, and `sort` is sort.Strings. The map
-- of a track is ranged over in the order of its entries, which the sort makes no matter.
use majmun.Base.{ℕ, Bool, true, false, Option, none, some, List, [], ◌∷◌, ◌++◌, map}
use majmun.Base.Lists.{get_or}
use majmun.Base.Tests.{if◌then◌else◌}
use majmun.Urlgen.Types.{Url}
use majmun.Base.Maps.{Map, lookup}
use majmun.Base.Text.{Text, codes}
use majmun.Base.Words.{join}
use majmun.Channel.{Track}

pub data EncodeError : Type 0 where
  already_closed not_written missing_uri : EncodeError

pub record M3uEncoder : Type 0 where
  pub written : Text
  pub header_attrs : Map Text
  pub header_written : Bool
  pub closed : Bool

-- %s="%s"
unfoldable pub attr_pair : Text × Text → Text
attr_pair (key, value) = key ++ (b'=' ∷ b'"' ∷ (value ++ b'"' ∷ []))

module _ (sort : List Text → List Text) (show_length : ℕ → Text) where
  unfoldable pub attr_pairs : Map Text → List Text
  unfolding attr_pair
  attr_pairs m = sort (map attr_pair m)

  -- A space and the pairs, if there are any.
  unfoldable pub attrs_text : Map Text → Text
  unfolding attr_pairs
  attrs_text [] = []
  attrs_text (a ∷ m) = b' ' ∷ join (codes " ") (attr_pairs (a ∷ m))

  unfoldable pub name_text : Text → Text
  name_text [] = []
  name_text (c ∷ name) = b',' ∷ c ∷ name

  unfoldable pub extinf_line : Track → Text
  unfolding attrs_text name_text
  extinf_line t =
      codes "#EXTINF:" ++ (show_length t.length ++ (attrs_text t.attrs ++ name_text t.name))

  unfoldable pub header_line : Map Text → Text
  unfolding attrs_text
  header_line attrs = codes "#EXTM3U" ++ attrs_text attrs

  unfoldable pub tag_line : Map Text → Text → Text
  tag_line tags key = b'#' ∷ (key ++ b':' ∷ get_or (lookup key tags) [])

  unfoldable pub keys : Map Text → List Text
  keys [] = []
  keys ((key, value) ∷ m) = key ∷ keys m

  unfoldable pub tag_lines : Map Text → List Text
  unfolding tag_line keys
  tag_lines tags = map (tag_line tags) (sort (keys tags))

-- fmt.Fprintln, of which `accepts` says whether the writer takes it behind what was written.
module _ (accepts : Text → Text → Bool) where
  unfoldable pub println : Text → M3uEncoder → M3uEncoder × Bool
  println line e =
      if accepts e.written line
      then (record e { written = e.written ++ (line ++ b'\n' ∷ []) }, true)
      else (e, false)

  -- The lines in order, up to the first that is not taken.
  unfoldable pub print_lines : List Text → M3uEncoder → M3uEncoder × Bool
  unfolding println
  print_lines [] e = (e, true)
  print_lines (line ∷ lines) e =
      let (d, taken) = println line e in
      let rest = print_lines lines d in if taken then rest else (d, false)

module _ (accepts : Text → Text → Bool) (sort : List Text → List Text)
    (show_length : ℕ → Text) where
  unfoldable pub write_header : M3uEncoder → M3uEncoder × Bool
  unfolding println header_line
  write_header e =
      if e.header_written
      then (e, true)
      else let (d, taken) = println accepts (header_line sort show_length e.header_attrs) e in
        if taken then (record d { header_written = true }, true) else (d, false)

  unfoldable pub uri_part : Option Url → M3uEncoder → M3uEncoder × Option EncodeError
  unfolding println
  uri_part none e = (e, some missing_uri)
  uri_part (some u) e =
      let (d, taken) = println accepts u.string e in (d, if taken then none else some not_written)

  -- The lines of a track.
  unfoldable pub print_track : Track → M3uEncoder → M3uEncoder × Option EncodeError
  unfolding print_lines extinf_line tag_lines uri_part
  print_track t d =
      let (f, printed) =
        print_lines accepts (extinf_line sort show_length t ∷ tag_lines sort show_length t.tags)
          d in
      if printed then uri_part t.uri f else (f, some not_written)

  unfoldable pub encode_track : Track → M3uEncoder → M3uEncoder × Option EncodeError
  unfolding write_header print_track
  encode_track t e =
      let (d, headed) = write_header e in
      let rest = print_track t d in if headed then rest else (d, some not_written)

  unfoldable pub encode : Track → M3uEncoder → M3uEncoder × Option EncodeError
  unfolding encode_track
  encode t e = if e.closed then (e, some already_closed) else encode_track t e

  -- Encode for each track, up to the first that fails.
  unfoldable pub encode_all : List Track → M3uEncoder → M3uEncoder × Option EncodeError
  unfolding encode
  encode_all [] e = (e, none)
  encode_all (t ∷ ts) e =
      let (d, x) = encode t e in
      let rest = encode_all ts d in elim x [ some y ↦ (d, some y) | none ↦ rest ]

unfoldable pub new_encoder : Map Text → M3uEncoder
new_encoder attrs = record {
  written = [];
  header_attrs = attrs;
  header_written = false;
  closed = false;
}
