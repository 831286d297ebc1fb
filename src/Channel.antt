-- ===== src/Channel.antt =====
-- internal/listing/m3u8/store/store_channel.go, with the track of internal/parser/m3u8/model.go, the
-- selector of internal/config/common/selector.go and the playlist of internal/listing/interface.go.
-- A method that changes the channel returns the changed one.
pub mod Laws
use majmun.Base.{ℕ, Bool, true, false, Option, none, some, List}
use majmun.Base.Text.{Text, codes}
use majmun.Base.Maps.{Map, lookup, insert, delete}
use majmun.Urlgen.Types.{Url, ProviderInfo, Stream}

-- A length is the bit pattern of a float64.
pub record Track : Type 0 where
  pub name : Text
  pub length : ℕ
  pub uri : Option Url
  pub attrs : Map Text
  pub tags : Map Text

abbrev pub attr_tvg_id : Text
attr_tvg_id = codes "tvg-id"

abbrev pub attr_tvg_name : Text
attr_tvg_name = codes "tvg-name"

-- The part of listing.Playlist that the rules and the processor use. `file_url` and `stream_url`
-- are CreateFileURL and CreateStreamURL of its generator; `none` is an error.
pub record Playlist : Type 0 where
  pub name : Text
  pub is_proxied : Bool
  pub file_url : ProviderInfo → Text → Option Url
  pub stream_url : Text → List Stream → Option Url

-- `unset` is the empty string.
pub data SelectorType : Type 0 where
  name attr tag url unset : SelectorType

pub record Selector : Type 0 where
  pub type : SelectorType
  pub value : Text

pub record Channel : Type 0 where
  pub track : Track
  pub playlist : Playlist
  pub hidden : Bool
  pub removed : Bool
  pub priority : ℕ

unfoldable pub new_channel : Track → Playlist → Channel
new_channel track playlist = record {
  track = track;
  playlist = playlist;
  hidden = false;
  removed = false;
  priority = 0;
}

unfoldable pub set_name : Text → Channel → Channel
set_name s c = record c { track = record c.track { name = s } }

unfoldable pub set_uri : Option Url → Channel → Channel
set_uri u c = record c { track = record c.track { uri = u } }

unfoldable pub mark_hidden : Channel → Channel
mark_hidden c = record c { hidden = true }

unfoldable pub mark_removed : Channel → Channel
mark_removed c = record c { removed = true }

unfoldable pub set_priority : ℕ → Channel → Channel
set_priority n c = record c { priority = n }

unfoldable pub get_attr : Channel → Text → Option Text
get_attr c key = lookup key c.track.attrs

unfoldable pub set_attr : Text → Text → Channel → Channel
set_attr key value c = record c {
  track = record c.track { attrs = insert key value c.track.attrs };
}

unfoldable pub delete_attr : Text → Channel → Channel
delete_attr key c = record c { track = record c.track { attrs = delete key c.track.attrs } }

unfoldable pub get_tag : Channel → Text → Option Text
get_tag c key = lookup key c.track.tags

unfoldable pub set_tag : Text → Text → Channel → Channel
set_tag key value c = record c { track = record c.track { tags = insert key value c.track.tags } }

unfoldable pub delete_tag : Text → Channel → Channel
delete_tag key c = record c { track = record c.track { tags = delete key c.track.tags } }

uri_text : Option Url → Option Text
uri_text none = none
uri_text (some u) = some u.string

field_value : SelectorType → Text → Channel → Option Text
unfolding uri_text get_attr get_tag
field_value name value c = some c.track.name
field_value url value c = uri_text c.track.uri
field_value attr value c = get_attr c value
field_value tag value c = get_tag c value
field_value unset value c = none

-- `none` is the result ("", false).
unfoldable pub get_field_value : Option Selector → Channel → Option Text
unfolding field_value
get_field_value none c = some c.track.name
get_field_value (some s) c = field_value s.type s.value c

-- The switch on the selector's type that set_field, merge_duplicates and remove_duplicates share.
-- `parse_url` is url.Parse; `none` is its error.
set_by_type : (Text → Option Url) → SelectorType → Text → Text → Channel → Option Channel
unfolding set_name set_uri set_attr set_tag
set_by_type parse_url name key value c = some (set_name value c)
set_by_type parse_url url key value c = elim (parse_url value) [
  | none ↦ none
  | some u ↦ some (set_uri (some u) c)
]
set_by_type parse_url attr key value c = some (set_attr key value c)
set_by_type parse_url tag key value c = some (set_tag key value c)
set_by_type parse_url unset key value c = some c

unfoldable pub set_selected : (Text → Option Url) → Selector → Text → Channel → Option Channel
unfolding set_by_type
set_selected parse_url s value c = set_by_type parse_url s.type s.value value c
