-- ===== src/Guide.antt =====
-- internal/listing/xmltv/streamer.go: one programme guide out of several. Guide channels are matched to
-- the channels of the playlist, and what was written before is left out. Of a programme the fields
-- that the streamer reads are kept, and `others` stands for those that it passes on; `start` is the
-- text of its time. `sha256` is sha256.Sum256.
pub mod Loops
pub mod Invariant
pub mod Once
pub mod Whole
pub mod Written
pub mod Tests
use majmun.Base.{ℕ, Bool, true, false, not, Option, none, some, List, [], ◌∷◌, ◌++◌, map}
use majmun.Base.Tests.{if◌then◌else◌}
use majmun.Base.Lists.{any, get_or}
use majmun.Base.Text.{Text, text_eq, contains}
use majmun.Base.Maps.{Map, lookup, insert}
use majmun.Urlgen.Types
use majmun.Urlgen.Types.{Url, ProviderInfo}
use majmun.Common.{generate_hash_id}

pub record CommonElement : Type 0 where
  pub lang : Text
  pub value : Text

pub record Icon : Type 0 where
  pub source : Text
  pub width : ℕ
  pub height : ℕ

pub record GuideChannel : Type 0 where
  pub id : Text
  pub display_names : List CommonElement
  pub icons : List Icon
  pub urls : List Text

pub record Programme : Type 0 where
  pub id : Text
  pub channel : Text
  pub start : Option Text
  pub icons : List Icon
  pub others : List Text

-- The part of listing.EPG that is read; `file_url` is CreateFileURL of its generator, if it has one.
pub record Epg : Type 0 where
  pub name : Text
  pub file_url : Option (ProviderInfo → Text → Option Url)

pub record Streamer : Type 0 where
  pub channel_id_to_name : Map Text
  pub added_channels : Map (List Text)
  pub added_programmes : Map Bool
  pub channel_id_mapping : Map Text

unfoldable pub new_streamer : Map Text → Streamer
new_streamer names = record {
  channel_id_to_name = names;
  added_channels = [];
  added_programmes = [];
  channel_id_mapping = [];
}

unfoldable pub channel_names_match : List Text → List Text → Bool
channel_names_match current existing = any (contains existing) current

-- The channel as it is written, under the id that matched.
unfoldable pub renamed : Text → Text → GuideChannel → GuideChannel
renamed id channel_name ch = record ch {
  id = id;
  display_names =
      if not (text_eq channel_name [])
      then record { lang = []; value = channel_name } ∷ []
      else ch.display_names;
}

-- The loop over the candidate ids; `names` are the display names of the channel.
unfoldable pub try_candidates :
    Text → List Text → List Text → GuideChannel → Streamer → Bool × GuideChannel × Streamer
unfolding renamed
try_candidates composite_key names [] ch s = (false, ch, s)
try_candidates composite_key names (id ∷ ids) ch s =
    let rest = try_candidates composite_key names ids ch s in
    elim (lookup id s.channel_id_to_name) [
      | none ↦ rest
      | some channel_name ↦ elim (lookup id s.added_channels) [
        | some existing ↦ if not (channel_names_match names existing) then (false, ch, s) else (
          false,
          ch,
          record s { channel_id_mapping = insert composite_key id s.channel_id_mapping },
        )
        | none ↦ (
          true,
          renamed id channel_name ch,
          record s {
            channel_id_mapping = insert composite_key id s.channel_id_mapping;
            added_channels = insert id names s.added_channels;
          },
        )
      ]
    ]

unfoldable pub display_values : GuideChannel → List Text
display_values ch = map (λ (e : CommonElement). e.value) ch.display_names

unfoldable pub programme_key : Programme → Text
programme_key p = p.channel ++ get_or p.start [] ++ p.id

unfoldable pub link_icon : (Text → Option Url) → Icon → Icon
link_icon file_url icon =
    if text_eq icon.source []
    then icon
    else elim (file_url icon.source) [ none ↦ icon | some u ↦ record icon { source = u.string } ]

unfoldable pub process_icons : Epg → List Icon → List Icon
unfolding link_icon
process_icons epg icons = elim epg.file_url [
  | none ↦ icons
  | some create ↦
      let info : ProviderInfo = record {
        provider_type = Types.ProviderType.epg;
        provider_name = epg.name;
      } in
      if any (λ (i : Icon). not (text_eq i.source [])) icons
      then map (link_icon (create info)) icons
      else icons
]

module _ (sha256 : Text → List ℕ) where
  unfoldable pub candidate_ids : GuideChannel → List Text
  unfolding display_values
  candidate_ids ch = ch.id ∷ map (λ v. generate_hash_id sha256 (v ∷ [])) (display_values ch)

  unfoldable pub process_channel : GuideChannel → Text → Streamer → Bool × GuideChannel × Streamer
  unfolding display_values
  process_channel ch source_url s =
      try_candidates (generate_hash_id sha256 (ch.id ∷ source_url ∷ [])) (display_values ch)
        (candidate_ids ch) ch s

  -- Once a programme's channel is known: is it new?
  unfoldable pub keep_programme : Text → Programme → Streamer → Bool × Programme × Streamer
  keep_programme mapped p s =
      let p' = record p { channel = mapped } in
      if get_or (lookup (programme_key p') s.added_programmes) false then (false, p', s) else (
        true,
        p',
        record s { added_programmes = insert (programme_key p') true s.added_programmes },
      )

  unfoldable pub process_programme : Programme → Text → Streamer → Bool × Programme × Streamer
  unfolding keep_programme
  process_programme p source_url s =
      elim (lookup (generate_hash_id sha256 (p.channel ∷ source_url ∷ [])) s.channel_id_mapping) [
        | none ↦ (false, p, s)
        | some mapped ↦ keep_programme mapped p s
      ]
