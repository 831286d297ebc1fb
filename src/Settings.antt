-- ===== src/Settings.antt =====
-- internal/config/proxy, internal/config/common/name_value.go, and mergeProxies of internal/app/utils.go:
-- the settings of a proxy and how those of the server, a playlist and a client are put together.
pub mod Names
pub mod Valid
pub mod Merged
pub mod Commands
pub mod Tests
use majmun.Base.{
  ℕ, zero, suc, Bool, true, false, ◌||◌, Option, none, some, List, [], ◌∷◌, ◌++◌, map,
}
use majmun.Base.Int64.{Int64, is_positive}
use majmun.Base.Lists.{get_or}
use majmun.Base.Maps.{Map, lookup, insert}
use majmun.Base.Tests.{if◌then◌else◌}
use majmun.Base.Text.{Text}

pub record NameValue : Type 0 where
  pub name : Text
  pub value : Text

-- A StringOrArr is a list of texts.
pub record Handler : Type 0 where
  pub command : List Text
  pub template_vars : List NameValue
  pub env_vars : List NameValue

pub record SegmenterSettings : Type 0 where
  pub command : List Text
  pub template_vars : List NameValue
  pub env_vars : List NameValue
  pub init_segments : Option Int64
  pub ready_timeout : Option Int64

pub record CacheSettings : Type 0 where
  pub enabled : Option Bool
  pub path : Option Text
  pub ttl : Option Int64
  pub retention : Option Int64
  pub compression : Option Bool

pub record HttpClient : Type 0 where
  pub cache : CacheSettings
  pub headers : List NameValue

pub record ErrorSettings : Type 0 where
  pub handler : Handler
  pub upstream_error : Handler
  pub rate_limit_exceeded : Handler
  pub link_expired : Handler

pub record Proxy : Type 0 where
  pub enabled : Option Bool
  pub concurrent_streams : Int64
  pub http_client : HttpClient
  pub stream : Handler
  pub segmenter : SegmenterSettings
  pub error : ErrorSettings

-- The loop over the base: the values by name, and the names in order.
unfoldable pub base_loop : List NameValue → Map Text × List Text → Map Text × List Text
base_loop [] s = s
base_loop (nv ∷ nvs) (merged, order) =
    base_loop nvs (insert nv.name nv.value merged, order ++ nv.name ∷ [])

-- A name goes to the end of the order if it is new.
unfoldable pub add_name : Option Text → Text → List Text → List Text
add_name none name order = order ++ name ∷ []
add_name (some v) name order = order

unfoldable pub override_loop : List NameValue → Map Text × List Text → Map Text × List Text
unfolding add_name
override_loop [] s = s
override_loop (nv ∷ nvs) (merged, order) =
    override_loop nvs
      (insert nv.name nv.value merged, add_name (lookup nv.name merged) nv.name order)

unfoldable pub name_values : Map Text → List Text → List NameValue
name_values merged order =
    map (λ name. record { name = name; value = get_or (lookup name merged) [] }) order

unfoldable pub merge_name_values : List NameValue → List NameValue → List NameValue
unfolding base_loop override_loop name_values
merge_name_values [] override = override
merge_name_values (b ∷ base) [] = b ∷ base
merge_name_values (b ∷ base) (o ∷ override) =
    let (merged, order) = override_loop (o ∷ override) (base_loop (b ∷ base) ([], [])) in
    name_values merged order

-- What is set replaces what stands.
abbrev pub replace_list : List Text → List Text → List Text
replace_list old [] = old
replace_list old (c ∷ new) = c ∷ new

abbrev pub replace_headers : List NameValue → List NameValue → List NameValue
replace_headers old [] = old
replace_headers old (h ∷ new) = h ∷ new

abbrev pub replace_option {ℓ} : {A : Type ℓ} → Option A → Option A → Option A
replace_option old none = old
replace_option old (some a) = some a

abbrev pub replace_count : Int64 → Int64 → Int64
replace_count old n = if is_positive n then n else old

abbrev pub no_handler : Handler
no_handler = record { command = []; template_vars = []; env_vars = [] }

unfoldable pub merge_handler : Handler → Handler → Handler
merge_handler result h = record {
  command = replace_list result.command h.command;
  template_vars = merge_name_values result.template_vars h.template_vars;
  env_vars = merge_name_values result.env_vars h.env_vars;
}

-- The loop of mergeHandlers, behind what has been merged so far.
unfoldable pub merge_handlers : Handler → List Handler → Handler
unfolding merge_handler
merge_handlers result [] = result
merge_handlers result (h ∷ handlers) = merge_handlers (merge_handler result h) handlers

unfoldable pub merge_segmenter : SegmenterSettings → SegmenterSettings → SegmenterSettings
merge_segmenter dst src = record {
  command = replace_list dst.command src.command;
  template_vars = merge_name_values dst.template_vars src.template_vars;
  env_vars = merge_name_values dst.env_vars src.env_vars;
  init_segments = replace_option dst.init_segments src.init_segments;
  ready_timeout = replace_option dst.ready_timeout src.ready_timeout;
}

unfoldable pub merge_cache : CacheSettings → CacheSettings → CacheSettings
merge_cache result p = record {
  enabled = replace_option result.enabled p.enabled;
  path = result.path;
  ttl = replace_option result.ttl p.ttl;
  retention = replace_option result.retention p.retention;
  compression = replace_option result.compression p.compression;
}

unfoldable pub merge_error : ErrorSettings → ErrorSettings → ErrorSettings
unfolding merge_handlers
merge_error result p =
    let handler = merge_handlers no_handler (result.handler ∷ p.handler ∷ []) in
    record {
      handler = handler;
      rate_limit_exceeded =
          merge_handlers no_handler
            (handler ∷ result.rate_limit_exceeded ∷ p.rate_limit_exceeded ∷ []);
      link_expired =
          merge_handlers no_handler (handler ∷ result.link_expired ∷ p.link_expired ∷ []);
      upstream_error =
          merge_handlers no_handler (handler ∷ result.upstream_error ∷ p.upstream_error ∷ []);
    }

-- A turn of the loop of mergeProxies.
unfoldable pub merge_proxy : Proxy → Proxy → Proxy
unfolding merge_handlers merge_segmenter merge_cache merge_error
merge_proxy result p = record {
  enabled = replace_option result.enabled p.enabled;
  concurrent_streams = replace_count result.concurrent_streams p.concurrent_streams;
  http_client = record {
    cache = merge_cache result.http_client.cache p.http_client.cache;
    headers = replace_headers result.http_client.headers p.http_client.headers;
  };
  stream = merge_handlers no_handler (result.stream ∷ p.stream ∷ []);
  segmenter = merge_segmenter result.segmenter p.segmenter;
  error = merge_error result.error p.error;
}

abbrev pub no_proxy : Proxy
no_proxy = record {
  enabled = none;
  concurrent_streams = 0;
  http_client = record {
    cache = record {
      enabled = none;
      path = none;
      ttl = none;
      retention = none;
      compression = none;
    };
    headers = [];
  };
  stream = no_handler;
  segmenter = record {
    command = [];
    template_vars = [];
    env_vars = [];
    init_segments = none;
    ready_timeout = none;
  };
  error = record {
    handler = no_handler;
    upstream_error = no_handler;
    rate_limit_exceeded = no_handler;
    link_expired = no_handler;
  };
}

unfoldable pub merge_loop : Proxy → List Proxy → Proxy
unfolding merge_proxy
merge_loop result [] = result
merge_loop result (p ∷ proxies) = merge_loop (merge_proxy result p) proxies

unfoldable pub merge_proxies : List Proxy → Proxy
unfolding merge_loop
merge_proxies proxies = merge_loop no_proxy proxies
