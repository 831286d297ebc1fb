-- ===== src/App.antt =====
-- internal/app: the manager and its clients, made out of the configuration. `parses` is whether
-- template.Parse takes a text, `opens` whether httpclient.NewStore succeeds for a path, and `codec` is
-- the cryptography of Urlgen. A semaphore is its size.
pub mod Manager
pub mod Built
pub mod Complete
pub mod Found
pub mod Cached
pub mod Tests
use majmun.Base.{ℕ, Bool, true, false, not, ◌&&◌, ◌||◌, Option, none, some, List, [], ◌∷◌, ◌++◌}
use majmun.Base.Int64.{Int64, is_positive}
use majmun.Base.Lists.{get_or}
use majmun.Base.Maps.{Map, lookup, insert}
use majmun.Base.Result.{Result, ok, err, Check, guard, each, ◌>>◌, ◌>>=◌}
use majmun.Base.Tests.{if◌then◌else◌}
use majmun.Base.Text.{Text, codes, text_eq, is_filled}
use majmun.Config.{Listing, ClientConfig, Config}
use majmun.Settings.{NameValue, Handler, Proxy, merge_proxies}
use majmun.Urlgen.{Generator, Codec, new_generator}

pub data AppError : Type 0 where
  secret_empty path_missing store_failed bad_command playlist_not_found epg_not_found : AppError

-- httpclient.Options
pub record ClientOptions : Type 0 where
  pub ttl : Int64
  pub retention : Int64
  pub compression : Bool
  pub headers : List NameValue

pub data HttpKind : Type 0 where
  direct : List NameValue → HttpKind
  cached : ClientOptions → HttpKind

-- app.Playlist and app.EPG, of which the latter has no semaphore.
pub record Provider : Type 0 where
  pub name : Text
  pub sources : List Text
  pub generator : Generator
  pub semaphore : Option Int64
  pub proxy_config : Proxy
  pub http_client : HttpKind

pub record Client : Type 0 where
  pub name : Text
  pub secret : Text
  pub semaphore : Option Int64
  pub playlist_providers : List Provider
  pub epg_providers : List Provider
  pub proxy : Proxy
  pub epg_link : Text
  pub generator : Generator
  pub cache_store : Option Text

-- httpClientOptions, without CacheEnabled.
unfoldable pub http_client_options : Proxy → ClientOptions
http_client_options p = record {
  ttl = get_or p.http_client.cache.ttl 0;
  retention = get_or p.http_client.cache.retention 0;
  compression = get_or p.http_client.cache.compression false;
  headers = p.http_client.headers;
}

unfoldable pub new_http_client : Option Text → Proxy → HttpKind
unfolding http_client_options
new_http_client none p = direct p.http_client.headers
new_http_client (some path) p =
    if get_or p.http_client.cache.enabled false
    then cached (http_client_options p)
    else direct p.http_client.headers

-- A semaphore of that size, if there is a limit.
abbrev pub new_semaphore : Int64 → Option Int64
new_semaphore n = if is_positive n then some n else none

-- mergeProxies of the settings of the server, the listing and the client.
unfoldable pub merged_proxy : Config → Proxy → Listing → Proxy
merged_proxy c client l = merge_proxies (c.proxy ∷ l.proxy ∷ client ∷ [])

unfoldable pub find_listing : Text → List Listing → Option Listing
find_listing name [] = none
find_listing name (l ∷ ls) =
    let rest = find_listing name ls in if text_eq l.name name then some l else rest

-- The loops of initClientProviders, for either kind of provider.
module _ (add : Client → Listing → Result AppError Client) (not_found : AppError) where
  unfoldable pub add_each : List Listing → Client → Result AppError Client
  add_each [] cl = ok cl
  add_each (l ∷ ls) cl = do d ← add cl l; add_each ls d

  unfoldable pub add_named : List Listing → List Text → Client → Result AppError Client
  unfolding find_listing
  add_named ls [] cl = ok cl
  add_named ls (n ∷ ns) cl = do
    l ← elim (find_listing n ls) [ none ↦ err not_found | some l ↦ ok l ]
    d ← add cl l
    add_named ls ns d

  unfoldable pub add_providers : List Listing → List Text → Client → Result AppError Client
  unfolding add_each add_named
  add_providers ls [] cl = add_each ls cl
  add_providers ls (n ∷ ns) cl = add_named ls (n ∷ ns) cl

module _ (parses : Text → Bool) where
  -- NewShellStreamer, which parses the parts of a command.
  unfoldable pub new_shell_streamer : List Text → Check AppError
  unfolding each
  new_shell_streamer command = each (λ part. guard (parses part) bad_command) command

  -- The commands of NewPlaylistProvider.
  unfoldable pub new_streamers : Proxy → Check AppError
  unfolding new_shell_streamer
  new_streamers p = do
    new_shell_streamer p.stream.command
    new_shell_streamer p.error.rate_limit_exceeded.command
    new_shell_streamer p.error.upstream_error.command
    new_shell_streamer p.error.link_expired.command

  module _ (c : Config) where
    unfoldable pub playlist_provider : Client → Listing → Provider
    unfolding merged_proxy new_http_client
    playlist_provider cl l =
        let proxy = merged_proxy c cl.proxy l in
        record {
          name = l.name;
          sources = l.sources;
          generator = cl.generator;
          semaphore = new_semaphore l.proxy.concurrent_streams;
          proxy_config = proxy;
          http_client = new_http_client cl.cache_store proxy;
        }

    unfoldable pub epg_provider : Client → Listing → Provider
    unfolding merged_proxy new_http_client
    epg_provider cl l =
        let proxy = merged_proxy c cl.proxy l in
        record {
          name = l.name;
          sources = l.sources;
          generator = cl.generator;
          semaphore = none;
          proxy_config = proxy;
          http_client = new_http_client cl.cache_store proxy;
        }

    -- addPlaylistProvider, which adds at the end.
    unfoldable pub add_playlist_provider : Client → Listing → Result AppError Client
    unfolding new_streamers merged_proxy playlist_provider
    add_playlist_provider cl l = do
      new_streamers (merged_proxy c cl.proxy l)
      ok (record cl { playlist_providers = cl.playlist_providers ++ playlist_provider cl l ∷ [] })

    unfoldable pub add_epg_provider : Client → Listing → Result AppError Client
    unfolding epg_provider
    add_epg_provider cl l =
        ok (record cl { epg_providers = cl.epg_providers ++ epg_provider cl l ∷ [] })

    unfoldable pub init_client_providers : ClientConfig → Client → Result AppError Client
    unfolding add_providers add_playlist_provider add_epg_provider
    init_client_providers conf cl = do
      d ← add_providers add_playlist_provider playlist_not_found c.playlists conf.playlists cl
      add_providers add_epg_provider epg_not_found c.epgs conf.epgs d
