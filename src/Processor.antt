-- ===== src/Processor.antt =====
-- internal/listing/m3u8/processor.go: one channel for each tvg-id, with the streams of all channels
-- that share it. The map of streams is the list of its entries; the loop that sets the URIs visits
-- each channel once, so its order does not matter.
pub mod Attributes
pub mod Invariant
pub mod Unique
pub mod Streams
pub mod Turn
pub mod Conserved
pub mod Tests
use majmun.Base.{ℕ, Bool, true, false, not, ◌&&◌, Option, none, some, List, [], ◌∷◌, ◌++◌}
use majmun.Base.Tests.{ltb, ◌==◌, if◌then◌else◌}
use majmun.Base.Lists.{get_or, keep}
use majmun.Base.Text.{Text, text_eq}
use majmun.Base.Maps.{Map, lookup, insert}
use majmun.Base.RefMap.{RefMap, find, put, erase}
use majmun.Base.Result.{Result, ok, err, ◌>>=◌}
use majmun.Base.Sorter.{Sorter}
use majmun.Urlgen.Types
use majmun.Urlgen.Types.{Url, Stream, ProviderInfo}
use majmun.Channel.{Channel, Playlist, attr_tvg_id, get_attr, set_uri}
use majmun.Store.{Store, modify, non_empty}
use majmun.Rules.Config.{Rule}
use majmun.Rules.Fields
use majmun.Rules.Fields.{Error}
use majmun.PlaylistRules
use majmun.PlaylistRules.{PlaylistRule}

pub record Processor : Type 0 where
  pub store : Store
  pub channels_by_id : Map ℕ
  pub channel_streams : RefMap (List Stream)

unfoldable pub new_processor : Store → Processor
new_processor st = record { store = st; channels_by_id = []; channel_streams = [] }

unfoldable pub find_duplicate : Channel → Map ℕ → Option ℕ
find_duplicate ch by_id = elim (non_empty (get_attr ch attr_tvg_id)) [
  | none ↦ none
  | some id ↦ lookup id by_id
]

unfoldable pub track_channel : ℕ → Channel → Map ℕ → Map ℕ
track_channel r ch by_id = elim (non_empty (get_attr ch attr_tvg_id)) [
  | none ↦ by_id
  | some id ↦ insert id r by_id
]

abbrev pub provider_info : Channel → ProviderInfo
provider_info ch = record {
  provider_type = Types.ProviderType.playlist;
  provider_name = ch.playlist.name;
}

-- `uri` is the URI of the channel.
unfoldable pub create_stream : Channel → Url → Stream
create_stream ch uri = record {
  provider_info = provider_info ch;
  url = uri.string;
  hidden = ch.hidden;
}

unfoldable pub add_stream_to_channel : ℕ → ℕ → Processor → Processor
unfolding create_stream
add_stream_to_channel existing new p =
    let old = p.store.memory existing in
    let ch = p.store.memory new in
    let streams = get_or (find existing p.channel_streams) [] in
    elim ch.track.uri [
      | none ↦ p
      | some uri ↦
          if ltb old.priority ch.priority
          then record p {
            channel_streams =
                erase existing (put new (create_stream ch uri ∷ streams) p.channel_streams);
            channels_by_id = track_channel new ch p.channels_by_id;
          }
          else record p {
            channel_streams = put existing (streams ++ create_stream ch uri ∷ []) p.channel_streams;
          }
    ]

module _ (parse_url : Text → Option Url) where
  has_host : Option Url → Bool
  has_host none = false
  has_host (some u) = not (text_eq u.host [])

  -- isURL of processor.go.
  unfoldable pub is_file_url : Text → Bool
  unfolding has_host
  is_file_url s = not (text_eq s []) && has_host (parse_url s)

  -- The value of an attribute in a proxied playlist; `none` is an error of CreateFileURL.
  unfoldable pub proxied_value : (Text → Option Url) → Text → Option Text
  proxied_value file_url value =
      if is_file_url value
      then elim (file_url value) [ none ↦ none | some u ↦ some u.string ]
      else some value

  -- The loop over the attributes of a channel.
  unfoldable pub proxy_attrs : (Text → Option Url) → Map Text → Option (Map Text)
  proxy_attrs file_url [] = some []
  proxy_attrs file_url ((key, value) ∷ attrs) =
      let rest = proxy_attrs file_url attrs in
      elim (proxied_value file_url value) [
        | none ↦ none
        | some v ↦ elim rest [ none ↦ none | some m ↦ some ((key, v) ∷ m) ]
      ]

  unfoldable pub proxy_channel_attributes : Channel → Option Channel
  unfolding proxy_attrs
  proxy_channel_attributes ch =
      elim (proxy_attrs (ch.playlist.file_url (provider_info ch)) ch.track.attrs) [
        | none ↦ none
        | some attrs ↦ some (record ch { track = record ch.track { attrs = attrs } })
      ]

  -- The channel with the attributes of a proxied playlist.
  unfoldable pub proxied_channel : Channel → Option Channel
  proxied_channel ch = if ch.playlist.is_proxied then proxy_channel_attributes ch else some ch

  -- A channel whose id was not met before.
  unfoldable pub add_channel : ℕ → Channel → Processor → Processor
  unfolding create_stream
  add_channel r ch p = record {
    store = modify r (λ _. ch) p.store;
    channel_streams =
        put r (elim ch.track.uri [ none ↦ [] | some uri ↦ create_stream ch uri ∷ [] ])
          p.channel_streams;
    channels_by_id = track_channel r ch p.channels_by_id;
  }

  unfoldable pub process_channel : ℕ → Processor → Option Processor
  process_channel r p =
      let ch = p.store.memory r in
      if ch.removed then some p else elim (find_duplicate ch p.channels_by_id) [
        | some existing ↦ some (add_stream_to_channel existing r p)
        | none ↦ elim (proxied_channel ch) [ none ↦ none | some ch' ↦ some (add_channel r ch' p) ]
      ]

  unfoldable pub process_channels : List ℕ → Processor → Option Processor
  process_channels [] p = some p
  process_channels (r ∷ rs) p = elim (process_channel r p) [
    | none ↦ none
    | some p' ↦ process_channels rs p'
  ]

unfoldable pub proxied_uri : Channel → List Stream → Channel
proxied_uri ch [] = ch
proxied_uri ch (s ∷ ss) =
    if ch.playlist.is_proxied
    then elim (ch.playlist.stream_url ch.track.name (s ∷ ss)) [
      | none ↦ ch
      | some u ↦ set_uri (some u) ch
    ]
    else ch

unfoldable pub update_uris : RefMap (List Stream) → Store → Store
unfolding proxied_uri
update_uris [] st = st
update_uris ((r, ss) ∷ streams) st = update_uris streams (modify r (λ ch. proxied_uri ch ss) st)

unfoldable pub has_streams : RefMap (List Stream) → ℕ → Bool
has_streams streams r = elim (find r streams) [ none ↦ false | some ss ↦ true ]

unfoldable pub collect_results : RefMap (List Stream) → Store → List ℕ
unfolding has_streams
collect_results streams st = keep (has_streams streams) st.channels

pub data Failure : Type 0 where
  rule_failed : Error → Failure
  attribute_failed : Failure

module _ (parse_url : Text → Option Url) where
  -- The part of Process after the rules.
  unfoldable pub group_streams : Store → Result Failure (List ℕ × Store)
  group_streams st = elim (process_channels parse_url st.channels (new_processor st)) [
    | none ↦ err attribute_failed
    | some p ↦ ok (collect_results p.channel_streams p.store, update_uris p.channel_streams p.store)
  ]

module _ (parse_url : Text → Option Url) (sorter : Sorter) (client : Text) where
  after_playlist_rules : Store × Option Error → Result Failure (List ℕ × Store)
  after_playlist_rules (st, none) = group_streams parse_url st
  after_playlist_rules (st, some e) = err (rule_failed e)

  unfoldable pub process :
      (ℕ → Bool)
      → (ℕ → Bool)
      → List Rule
      → List PlaylistRule
      → Store
      → Result Failure (List ℕ × Store)
  unfolding after_playlist_rules
  process at_channel at_playlist rules playlist_rules st =
      elim (Fields.apply parse_url client at_channel rules st) [
        | err e ↦ err (rule_failed e)
        | ok st' ↦
            after_playlist_rules
              (PlaylistRules.apply parse_url sorter client at_playlist 0 playlist_rules st')
      ]
