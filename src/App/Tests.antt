-- ===== src/App/Tests.antt =====
-- Two clients, of which one names its playlist.
use majmun.Base.{◌≡◌, refl, Bool, true, none, some, List, [], ◌∷◌}
use majmun.Base.Lists.{All}
use majmun.Base.Maps.{lookup, insert}
use majmun.Base.Result.{ok, map_ok, each}
use majmun.Base.Text.{Text, codes, contains, text_eq, starts_with}
use majmun.Config.{Listing, ClientConfig, Config, validate}
use majmun.Config.Rules.{has, validate_channel_rules, validate_playlist_rules}
use majmun.Config.Valid.{IsSound, validate-IsSound}
use majmun.Rules.Config.{is_nil}
use majmun.Samples.{parse}
use majmun.Urlgen.{Codec}
use majmun.Server.Access.{client_auth}
use majmun.Settings.{Proxy, no_proxy, merge_proxies}
use majmun.App.{new_streamers, merged_proxy}
use majmun.App.Manager.{client, new_manager}
use majmun.App.Built.{CanBuild}
use majmun.App.Cached.{HasTimes, manager_of-HasTimes}
use majmun.App.Complete.{store_of, manager_of, new_manager-manager_of}
use majmun.App.Found.{made, with_secret, client_auth-with_secret}

abbrev server_proxy : Proxy
server_proxy = record no_proxy {
  http_client = record no_proxy.http_client {
    cache = record no_proxy.http_client.cache {
      enabled = some true;
      path = some (codes "cache");
      ttl = some 5;
      retention = some 7;
    };
  };
  stream = record no_proxy.stream { command = codes "ffmpeg" ∷ [] };
}

abbrev listing : Text → Listing
listing name = record { name = name; sources = codes "http://h" ∷ []; proxy = no_proxy }

abbrev client_config : Text → Text → List Text → ClientConfig
client_config name secret playlists = record {
  name = name;
  secret = secret;
  playlists = playlists;
  epgs = [];
  proxy = no_proxy;
}

abbrev config : Config
config = record {
  yaml_snippets = codes ".x" ∷ [];
  server = record { listen_addr = codes ":8080"; metrics_addr = []; public_url = codes "http://m" };
  logs = record { level = codes "info"; format = [] };
  url_generator = record { secret = codes "k"; stream_ttl = 0; file_ttl = 0 };
  proxy = server_proxy;
  clients =
      client_config (codes "tv") (codes "s1") []
      ∷ client_config (codes "pc") (codes "s2") (codes "b" ∷ [])
      ∷ [];
  playlists = listing (codes "a") ∷ listing (codes "b") ∷ [];
  epgs = listing (codes "e") ∷ [];
  channel_rules = [];
  playlist_rules = [];
}

abbrev codec : Codec
codec = record {
  sha256 = λ s. s;
  nonce_size = 0;
  seal = λ key nonce s. s;
  unseal = λ key nonce s. some s;
  marshal = λ d. none;
  unmarshal = λ s. none;
  encode = λ s. s;
  decode = λ s. some s;
  parse_url = parse;
}

abbrev parses : Text → Bool
parses s = true

abbrev opens : Text → Bool
opens path = true

valid : validate config ≡ ok tt
unfolding validate has lookup text_eq contains starts_with each validate_channel_rules
    validate_playlist_rules is_nil insert
valid = refl

can_build : All (CanBuild parses codec config (store_of config)) config.clients
unfolding new_streamers each merged_proxy merge_proxies
can_build = ((refl, (refl, tt)), ((refl, (refl, tt)), tt))

validate-IsSound_example : IsSound config
validate-IsSound_example = validate-IsSound config valid

new_manager-manager_of_example :
    new_manager parses codec opens config ≡ ok (manager_of parses codec opens config)
new_manager-manager_of_example =
    new_manager-manager_of parses codec opens config valid can_build (λ path. refl)

client_auth-with_secret_example :
    map_ok (λ m. client_auth (client m) (some (codes "s2"))) (new_manager parses codec opens config)
    ≡ ok (made parses codec config (store_of config) (with_secret (codes "s2") config.clients) none)
client_auth-with_secret_example =
    client_auth-with_secret parses codec opens config (codes "s2") valid can_build (λ path. refl)

manager_of-HasTimes_example :
    All
      (λ cl.
        All (λ p. HasTimes p.http_client) cl.playlist_providers
        × All (λ p. HasTimes p.http_client) cl.epg_providers)
      (manager_of parses codec opens config).clients
manager_of-HasTimes_example = manager_of-HasTimes parses codec opens config valid
