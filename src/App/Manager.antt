-- ===== src/App/Manager.antt =====
-- app.go: the manager, which makes its clients one after the other.
use majmun.Base.{Bool, false, Option, none, some, List, [], ◌∷◌, ◌++◌}
use majmun.Base.Int64.{Int64}
use majmun.Base.Lists.{get_or}
use majmun.Base.Maps.{Map, lookup, insert}
use majmun.Base.Result.{Result, ok, err, guard, ◌>>◌, ◌>>=◌}
use majmun.Base.Tests.{if◌then◌else◌}
use majmun.Base.Text.{Text, codes, is_filled}
use majmun.Config.{ClientConfig, Config}
use majmun.Urlgen.{Generator, Codec, new_generator}
use majmun.App.{
  AppError, secret_empty, path_missing, store_failed, Client, new_semaphore, init_client_providers,
}

pub record Manager : Type 0 where
  pub semaphore : Option Int64
  pub clients : List Client
  pub secret_to_client : Map Client

module _ (parses : Text → Bool) where
  module _ (codec : Codec) (c : Config) (cache_store : Option Text) where
    unfoldable pub create_url_generator : Text → Generator
    unfolding new_generator
    create_url_generator client_secret =
        new_generator codec c.server.public_url (c.url_generator.secret ++ client_secret)
          c.url_generator.stream_ttl c.url_generator.file_ttl

    -- NewClient, but for the processors of the rules.
    unfoldable pub new_client : ClientConfig → Generator → Result AppError Client
    new_client conf generator = do
      guard (is_filled conf.secret) secret_empty
      ok (record {
        name = conf.name;
        secret = conf.secret;
        semaphore = new_semaphore conf.proxy.concurrent_streams;
        playlist_providers = [];
        epg_providers = [];
        proxy = conf.proxy;
        epg_link = c.server.public_url ++ codes "/" ++ conf.secret ++ codes "/epg.xml.gz";
        generator = generator;
        cache_store = cache_store;
      })

    unfoldable pub create_client : ClientConfig → Result AppError Client
    unfolding create_url_generator new_client init_client_providers
    create_client conf = do
      cl ← new_client conf (create_url_generator conf.secret)
      init_client_providers parses c conf cl

    -- The loop of initClients.
    unfoldable pub init_clients : List ClientConfig → Manager → Result AppError Manager
    unfolding create_client
    init_clients [] m = ok m
    init_clients (conf ∷ confs) m = do
      cl ← create_client conf
      init_clients confs (record m {
        clients = m.clients ++ cl ∷ [];
        secret_to_client = insert conf.secret cl m.secret_to_client;
      })

  -- The store of NewManager: none if the cache is not enabled.
  unfoldable pub cache_store_of : (Text → Bool) → Config → Result AppError (Option Text)
  cache_store_of opens c =
      if get_or c.proxy.http_client.cache.enabled false
      then elim c.proxy.http_client.cache.path [
        | none ↦ err path_missing
        | some path ↦ if opens path then ok (some path) else err store_failed
      ]
      else ok none

  unfoldable pub new_manager : Codec → (Text → Bool) → Config → Result AppError Manager
  unfolding cache_store_of init_clients
  new_manager codec opens c = do
    store ← cache_store_of opens c
    init_clients codec c store c.clients (record {
      semaphore =
          if get_or c.proxy.enabled false then new_semaphore c.proxy.concurrent_streams else none;
      clients = [];
      secret_to_client = [];
    })

-- Manager.Client
unfoldable pub client : Manager → Text → Option Client
client m secret = lookup secret m.secret_to_client
