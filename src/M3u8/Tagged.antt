-- ===== src/M3u8/Tagged.antt =====
-- The lines of tags and of the address are read back.
use majmun.Base.{
  subst, ◌⊎◌, inl, inr, ℕ, ◌≡◌, refl, sym, ◌∙◌, Bool, false, Option, none, some, List, [], ◌∷◌,
  ◌++◌, map, arith,
}
use majmun.Base.Lists.{All}
use majmun.Base.Maps.{Map, insert}
use majmun.Base.Result.{Result, ok}
use majmun.Base.Text.{Text, codes, starts_with, text_eq}
use majmun.Channel.{Track}
use majmun.M3u8.Decoder.{
  Error, cut_colon, tag_by_prefix, tags_loop, parse_tags, has_whitelisted_tag_prefix, insert_all,
}
use majmun.M3u8.Lines.{trim_space}
use majmun.M3u8.Reading.{
  is_skipped, goes_on, stops, line_turn, track_turn, uri_turn, add_tag, next_track,
}
use majmun.Urlgen.Types.{Url}

abbrev pub entry_line : Text × Text → Text
entry_line (key, value) = b'#' ∷ (key ++ b':' ∷ value)

-- A key that the decoder keeps: EXT-X- with no colon behind it, or one of the others.
abbrev pub IsTagKey : Text → Type 0
IsTagKey key =
    ((k : Text) × (key ≡ codes "EXT-X-" ++ k) × (cut_colon k ≡ none))
    ⊎ (key ≡ codes "EXTGRP")
    ⊎ (key ≡ codes "EXTBYT")
    ⊎ (key ≡ codes "EXTSIZE")
    ⊎ (key ≡ codes "EXTBIN")
    ⊎ (key ≡ codes "EXTVLCOPT")

cut_colon-append :
    (k value : Text) → cut_colon k ≡ none → cut_colon (k ++ b':' ∷ value) ≡ some (k, value)
unfolding cut_colon
cut_colon-append [] value h = refl
cut_colon-append (c ∷ k) value h = ground (arith, cut_colon-append k value)

module _ (parse_float : Text → Option ℕ) (parse_url : Text → Option Url) (t : Track)
    (value : Text) where
  -- What a line of a tag does.
  abbrev Tags : Text → Type 0
  Tags key =
      line_turn parse_float parse_url (entry_line (key, value)) (some t)
      ≡ goes_on (some (record t { tags = insert key value t.tags }))

  Tags-ext_x : (k : Text) → cut_colon k ≡ none → Tags (codes "EXT-X-" ++ k)
  unfolding line_turn track_turn is_skipped has_whitelisted_tag_prefix starts_with parse_tags
      tags_loop tag_by_prefix text_eq add_tag cut_colon
  Tags-ext_x k h = rw (cut_colon-append k value h) refl

  Tags-extgrp : Tags (codes "EXTGRP")
  unfolding line_turn track_turn is_skipped has_whitelisted_tag_prefix starts_with parse_tags
      tags_loop tag_by_prefix text_eq add_tag
  Tags-extgrp = refl

  Tags-extbyt : Tags (codes "EXTBYT")
  unfolding line_turn track_turn is_skipped has_whitelisted_tag_prefix starts_with parse_tags
      tags_loop tag_by_prefix text_eq add_tag
  Tags-extbyt = refl

  Tags-extsize : Tags (codes "EXTSIZE")
  unfolding line_turn track_turn is_skipped has_whitelisted_tag_prefix starts_with parse_tags
      tags_loop tag_by_prefix text_eq add_tag
  Tags-extsize = refl

  Tags-extbin : Tags (codes "EXTBIN")
  unfolding line_turn track_turn is_skipped has_whitelisted_tag_prefix starts_with parse_tags
      tags_loop tag_by_prefix text_eq add_tag
  Tags-extbin = refl

  Tags-extvlcopt : Tags (codes "EXTVLCOPT")
  unfolding line_turn track_turn is_skipped has_whitelisted_tag_prefix starts_with parse_tags
      tags_loop tag_by_prefix text_eq add_tag
  Tags-extvlcopt = refl

  Tags-lem : (key : Text) → IsTagKey key → Tags key
  Tags-lem key (inl (k, same, plain)) = subst Tags (sym same) (Tags-ext_x k plain)
  Tags-lem key (inr (inl same)) = subst Tags (sym same) Tags-extgrp
  Tags-lem key (inr (inr (inl same))) = subst Tags (sym same) Tags-extbyt
  Tags-lem key (inr (inr (inr (inl same)))) = subst Tags (sym same) Tags-extsize
  Tags-lem key (inr (inr (inr (inr (inl same))))) = subst Tags (sym same) Tags-extbin
  Tags-lem key (inr (inr (inr (inr (inr same))))) = subst Tags (sym same) Tags-extvlcopt

-- A text that no white space surrounds.
abbrev pub IsTrimmed : Text → Type 0
IsTrimmed s = trim_space s ≡ s

abbrev pub TagsArePrintable : Map Text → Type 0
TagsArePrintable m = All (λ p. IsTagKey p.0 × IsTrimmed (entry_line p)) m

-- An address that is read back.
pub record IsAddress (parse_url : Text → Option Url) (u : Url) : Type 0 where
  pub parses : parse_url u.string ≡ some u
  pub filled : is_skipped u.string ≡ false
  pub plain : starts_with (codes "#") u.string ≡ false
  pub trimmed : IsTrimmed u.string

-- A text that no hash begins has no longer prefix with a hash.
no_hash : (s p : Text) → starts_with (codes "#") s ≡ false → starts_with (b'#' ∷ p) s ≡ false
unfolding starts_with
no_hash [] p h = refl
no_hash (c ∷ s) p h = ground arith

no_tag : (s : Text) → starts_with (codes "#") s ≡ false → has_whitelisted_tag_prefix s ≡ false
unfolding has_whitelisted_tag_prefix
no_tag s h = ground (
  arith,
  no_hash s (codes "EXT-X-") h,
  no_hash s (codes "EXTGRP:") h,
  no_hash s (codes "EXTBYT:") h,
  no_hash s (codes "EXTSIZE:") h,
  no_hash s (codes "EXTBIN:") h,
  no_hash s (codes "EXTVLCOPT:") h,
)

module _ (parse_float : Text → Option ℕ) (parse_url : Text → Option Url) (fails : Bool)
    (lines : List Text) (line : Text) (trimmed : IsTrimmed line) (track : Option Track) where
  pub next_track_goes_on :
      (t : Option Track)
      → line_turn parse_float parse_url line track ≡ goes_on t
      → next_track parse_float parse_url fails (line ∷ lines) track
        ≡ next_track parse_float parse_url fails lines t
  unfolding next_track
  next_track_goes_on t turn = rw (trimmed, next_track) (rw turn refl)

  next_track_stops :
      (r : Result Error Track)
      → line_turn parse_float parse_url line track ≡ stops r
      → next_track parse_float parse_url fails (line ∷ lines) track ≡ (r, lines)
  unfolding next_track
  next_track_stops r turn = rw (trimmed, next_track) (rw turn refl)

module _ (parse_float : Text → Option ℕ) (parse_url : Text → Option Url) (fails : Bool) (u : Url)
    (address : IsAddress parse_url u) (rest : List Text) where
  uri_turn_lem :
      (t : Track)
      → line_turn parse_float parse_url u.string (some t) ≡ stops (ok (record t { uri = some u }))
  unfolding line_turn track_turn uri_turn
  uri_turn_lem t = ground (
    arith,
    address.filled,
    address.plain,
    address.parses,
    no_hash u.string (codes "EXTINF:") address.plain,
    no_tag u.string address.plain,
  )

  uri_lem :
      (t : Track)
      → next_track parse_float parse_url fails (u.string ∷ rest) (some t)
        ≡ (ok (record t { uri = some u }), rest)
  uri_lem t =
      next_track_stops parse_float parse_url fails rest u.string address.trimmed (some t)
        (ok (record t { uri = some u })) (uri_turn_lem t)

  -- The lines behind the EXTINF line.
  pub next_track-tags :
      (m : Map Text) (t : Track)
      → TagsArePrintable m
      → next_track parse_float parse_url fails (map entry_line m ++ (u.string ∷ rest)) (some t)
        ≡ (ok (record t { uri = some u; tags = insert_all m t.tags }), rest)
  unfolding insert_all
  next_track-tags [] t h = uri_lem t
  next_track-tags ((key, value) ∷ m) t h =
      next_track_goes_on parse_float parse_url fails (map entry_line m ++ (u.string ∷ rest))
        (entry_line (key, value)) h.0.1 (some t)
        (some (record t { tags = insert key value t.tags }))
        (Tags-lem parse_float parse_url t value key h.0.0)
      ∙ next_track-tags m (record t { tags = insert key value t.tags }) h.1
