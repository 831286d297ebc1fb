-- ===== src/Config.antt =====
-- internal/config: the configuration, whose decoding is left out, and its validation.
pub mod Rules
pub mod Sound
pub mod Valid
use majmun.Base.{Bool, true, false, not, ◌&&◌, ◌||◌, Option, none, some, List, [], ◌∷◌, ◌++◌}
use majmun.Base.Int64.{Int64}
use majmun.Base.Lists.{get_or}
use majmun.Base.Maps.{Map, lookup, insert}
use majmun.Base.Result.{Result, ok, err, Check, guard, each, ◌>>◌, ◌>>=◌}
use majmun.Base.Tests.{if◌then◌else◌}
use majmun.Base.Text.{Text, codes, contains, starts_with, is_filled}
use majmun.PlaylistRules.{PlaylistRule}
use majmun.Rules.Config.{Rule, is_nil}
use majmun.Settings.{Proxy}
use majmun.Settings.Valid.{
  Invalid, name_required, sources_required, empty_source, secret_required, unknown_playlist,
  unknown_epg, unknown_key, listen_addr_required, public_url_required, bad_log_level,
  bad_log_format, duplicate_playlist, duplicate_epg, duplicate_client, duplicate_secret,
  validate_global, validate_override,
}
use majmun.Config.Rules.{Names, has, validate_channel_rules, validate_playlist_rules}

-- config.Playlist and config.EPG, which have the same fields and the same Validate.
pub record Listing : Type 0 where
  pub name : Text
  pub sources : List Text
  pub proxy : Proxy

pub record ClientConfig : Type 0 where
  pub name : Text
  pub secret : Text
  pub playlists : List Text
  pub epgs : List Text
  pub proxy : Proxy

pub record ServerConfig : Type 0 where
  pub listen_addr : Text
  pub metrics_addr : Text
  pub public_url : Text

pub record Logs : Type 0 where
  pub level : Text
  pub format : Text

pub record UrlGeneratorConfig : Type 0 where
  pub secret : Text
  pub stream_ttl : Int64
  pub file_ttl : Int64

-- The snippets are the keys that no field takes.
pub record Config : Type 0 where
  pub yaml_snippets : List Text
  pub server : ServerConfig
  pub logs : Logs
  pub url_generator : UrlGeneratorConfig
  pub proxy : Proxy
  pub clients : List ClientConfig
  pub playlists : List Listing
  pub epgs : List Listing
  pub channel_rules : List Rule
  pub playlist_rules : List PlaylistRule

unfoldable pub validate_server : ServerConfig → Check Invalid
validate_server s = do
  guard (is_filled s.listen_addr) listen_addr_required
  guard (is_filled s.public_url) public_url_required

abbrev pub valid_log_levels : List Text
valid_log_levels = codes "debug" ∷ codes "info" ∷ codes "warn" ∷ codes "error" ∷ []

abbrev pub valid_log_formats : List Text
valid_log_formats = codes "text" ∷ codes "json" ∷ []

unfoldable pub validate_logs : Logs → Check Invalid
validate_logs l = do
  guard (not (is_filled l.level) || contains valid_log_levels l.level) bad_log_level
  guard (not (is_filled l.format) || contains valid_log_formats l.format) bad_log_format

unfoldable pub validate_listing : Listing → Check Invalid
unfolding each validate_override
validate_listing l = do
  guard (is_filled l.name) name_required
  guard (not (is_nil l.sources)) sources_required
  each (λ source. guard (is_filled source) empty_source) l.sources
  validate_override l.proxy

-- The loop over the playlists or the EPGs, with the names before it.
unfoldable pub listings_loop : Invalid → List Listing → Names → Result Invalid Names
unfolding validate_listing
listings_loop duplicate [] names = ok names
listings_loop duplicate (l ∷ ls) names = do
  validate_listing l
  guard (not (is_filled l.name && has names l.name)) duplicate
  listings_loop duplicate ls (if is_filled l.name then insert l.name true names else names)

unfoldable pub validate_client : Names → Names → ClientConfig → Check Invalid
unfolding each validate_override
validate_client playlist_names epg_names c = do
  guard (is_filled c.name) name_required
  guard (is_filled c.secret) secret_required
  each (λ p. guard (has playlist_names p) unknown_playlist) c.playlists
  each (λ e. guard (has epg_names e) unknown_epg) c.epgs
  validate_override c.proxy

-- The loop over the clients, with the names and the secrets before it.
unfoldable pub clients_loop :
    Names → Names → List ClientConfig → Names → Names → Result Invalid Names
unfolding validate_client
clients_loop playlist_names epg_names [] names secrets = ok names
clients_loop playlist_names epg_names (c ∷ cs) names secrets = do
  validate_client playlist_names epg_names c
  guard (not (has names c.name)) duplicate_client
  guard (not (is_filled c.secret && has secrets c.secret)) duplicate_secret
  clients_loop playlist_names epg_names cs (insert c.name true names)
      (if is_filled c.secret then insert c.secret true secrets else secrets)

unfoldable pub validate : Config → Check Invalid
unfolding validate_server validate_logs validate_global listings_loop clients_loop each
validate c = do
  each (λ key. guard (starts_with (codes ".") key) unknown_key) c.yaml_snippets
  validate_server c.server
  validate_logs c.logs
  guard (is_filled c.url_generator.secret) secret_required
  validate_global c.proxy
  playlist_names ← listings_loop duplicate_playlist c.playlists []
  epg_names ← listings_loop duplicate_epg c.epgs []
  client_names ← clients_loop playlist_names epg_names c.clients [] []
  validate_channel_rules client_names playlist_names c.channel_rules
  validate_playlist_rules client_names playlist_names c.playlist_rules
