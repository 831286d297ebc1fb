-- ===== src/App/Complete.antt =====
-- NewManager succeeds on a valid configuration.
use majmun.Base.{inl, inr, ◌≡◌, refl, ap, Bool, true, false, not, Option, none, some, [], map}
use majmun.Base.Int64.{is_negative, is_positive}
use majmun.Base.Lists.{All, get_or}
use majmun.Base.Result.{Result, ok, err, guard, each, ◌>>◌, >>-eq-ok, guard-eq-ok}
use majmun.Base.Tests.{if◌then◌else◌, Bool-cases}
use majmun.Base.Text.{Text, is_filled}
use majmun.Urlgen.{Codec}
use majmun.Config.{Config, validate}
use majmun.Config.Valid.{validate-IsSound}
use majmun.Settings.{Proxy, HttpClient}
use majmun.Settings.Valid.{
  Invalid, validate_proxy, validate_handler, validate_segmenter, validate_global,
  validate_proxy_global, validate_cache_global, holds, path_required, validate_name_value,
  ttl_not_positive, retention_not_positive, negative_concurrency,
}
use majmun.App.{AppError, path_missing, store_failed, new_semaphore}
use majmun.App.Manager.{Manager, cache_store_of, new_manager}
use majmun.App.Built.{client_of, CanBuild, by_secret, init_clients-client_of}

-- The check of the HTTP client is part of the check of the proxy.
pub validate_proxy-client :
    (f : HttpClient → Result Invalid (Unit {0})) (p : Proxy)
    → validate_proxy f p ≡ ok tt
    → f p.http_client ≡ ok tt
unfolding validate_proxy
validate_proxy-client f p h =
    let (count, h1) =
      >>-eq-ok (guard (not (is_negative p.concurrent_streams)) negative_concurrency) _ tt h in
    let (stream, h2) = >>-eq-ok (validate_handler p.stream) _ tt h1 in
    let (segmenter, h3) = >>-eq-ok (validate_segmenter p.segmenter) _ tt h2 in
    (>>-eq-ok (f p.http_client) _ tt h3).0

set_true : (o : Option Bool) → get_or o false ≡ true → o ≡ some true
set_true none h = cc
set_true (some b) h = ap some h

-- A cache that is enabled has a path, a time to live and a retention.
pub enabled_cache :
    (c : HttpClient)
    → get_or c.cache.enabled false ≡ true
    → validate_proxy_global c ≡ ok tt
    → (holds c.cache.path is_filled ≡ true)
      × (holds c.cache.ttl is_positive ≡ true)
      × (holds c.cache.retention is_positive ≡ true)
unfolding validate_proxy_global validate_cache_global
enabled_cache c enabled h =
    let on = set_true c.cache.enabled enabled in
    let valid : (validate_cache_global c.cache >> each validate_name_value c.headers) ≡ ok tt =
      rw on at h in
    let (path, h1) =
      >>-eq-ok (guard (holds c.cache.path is_filled) path_required) _ tt
        (>>-eq-ok (validate_cache_global c.cache) _ tt valid).0 in
    let (ttl, retention) =
      >>-eq-ok (guard (holds c.cache.ttl is_positive) ttl_not_positive) _ tt h1 in
    (
      guard-eq-ok _ path_required path,
      guard-eq-ok _ ttl_not_positive ttl,
      guard-eq-ok _ retention_not_positive retention,
    )

-- The path of the store, if the cache is enabled.
abbrev pub store_of : Config → Option Text
store_of c =
    if get_or c.proxy.http_client.cache.enabled false then c.proxy.http_client.cache.path else none

module _ (parses : Text → Bool) (opens : Text → Bool) (c : Config) where
  cache_store_of-store_of :
      ((path : Text) → opens path ≡ true)
      → validate_global c.proxy ≡ ok tt
      → cache_store_of parses opens c ≡ ok (store_of c)
  unfolding cache_store_of validate_global
  cache_store_of-store_of all h =
      let valid = validate_proxy-client validate_proxy_global c.proxy h in
      elim (Bool-cases (get_or c.proxy.http_client.cache.enabled false)) [
        | inl e ↦
            rw (e, cache_store_of)
              (opened c.proxy.http_client.cache.path (enabled_cache c.proxy.http_client e valid).0)
        | inr e ↦ rw (e, cache_store_of) refl
      ]
    where
      opened :
          (path : Option Text)
          → holds path is_filled ≡ true
          → ◌≡◌ {A = Result AppError (Option Text)}
              (elim path [
                | none ↦ err path_missing
                | some p ↦ if opens p then ok (some p) else err store_failed
              ])
              (ok path)
      opened none k = cc
      opened (some p) k = rw (all p) refl

module _ (parses : Text → Bool) (codec : Codec) (opens : Text → Bool) (c : Config) where
  -- The manager of a configuration.
  abbrev pub manager_of : Manager
  manager_of = record {
    semaphore =
        if get_or c.proxy.enabled false then new_semaphore c.proxy.concurrent_streams else none;
    clients = map (client_of parses codec c (store_of c)) c.clients;
    secret_to_client = by_secret parses codec c (store_of c) c.clients [];
  }

  -- If a configuration passes Validate, the commands of its playlists can be parsed and the directory
  -- of the cache can be opened, then NewManager succeeds. Its clients are those of the configuration
  -- in their order, each with a provider for every playlist and every EPG that it names, or for all of
  -- them if it names none, under the settings of the server, of that playlist or EPG and of the client.
  pub new_manager-manager_of :
      validate c ≡ ok tt
      → All (CanBuild parses codec c (store_of c)) c.clients
      → ((path : Text) → opens path ≡ true)
      → new_manager parses codec opens c ≡ ok manager_of
  unfolding new_manager
  new_manager-manager_of h build all =
      let s = validate-IsSound c h in
      rw (cache_store_of-store_of parses opens c all s.proxy, new_manager)
        (init_clients-client_of parses codec c (store_of c) c.clients _ s.clients build)
