-- ===== src/Settings/Valid.antt =====
-- The validation of the settings of a proxy: name_value.go and http_client.go of internal/config/common,
-- and internal/config/proxy.
use majmun.Base.{Bool, true, false, not, ◌&&◌, Option, none, some, List, [], ◌∷◌}
use majmun.Base.Int64.{is_negative, is_positive}
use majmun.Base.Result.{ok, Check, guard, each, ◌>>◌}
use majmun.Base.Tests.{if◌then◌else◌}
use majmun.Base.Text.{Text, codes, contains, is_filled}
use majmun.Settings.{
  NameValue, Handler, SegmenterSettings, CacheSettings, HttpClient, ErrorSettings, Proxy,
}

-- What a validation complains of.
pub data Invalid : Type 0 where
  name_required value_required reserved_variable init_segments_too_small negative_concurrency :
      Invalid
  path_not_global ttl_without_cache ttl_not_positive negative_retention : Invalid
  path_required retention_not_positive : Invalid
  sources_required empty_source secret_required unknown_playlist unknown_epg unknown_client :
      Invalid
  unknown_key listen_addr_required public_url_required bad_log_level bad_log_format : Invalid
  duplicate_playlist duplicate_epg duplicate_client duplicate_secret : Invalid
  selector_value_required condition_required too_few_patterns only_clients : Invalid
  final_selector_required : Invalid

unfoldable pub validate_name_value : NameValue → Check Invalid
validate_name_value nv = do
  guard (is_filled nv.name) name_required
  guard (is_filled nv.value) value_required

unfoldable pub validate_handler : Handler → Check Invalid
unfolding validate_name_value each
validate_handler h = do
  each validate_name_value h.template_vars
  each validate_name_value h.env_vars

abbrev pub reserved_segmenter_vars : List Text
reserved_segmenter_vars = codes "segment_path" ∷ codes "playlist_path" ∷ []

unfoldable pub validate_template_var : NameValue → Check Invalid
unfolding validate_name_value
validate_template_var nv = do
  validate_name_value nv
  guard (not (contains reserved_segmenter_vars nv.name)) reserved_variable

-- A test of what is behind a pointer, if there is something.
abbrev pub if_set {ℓ} : {A : Type ℓ} → Option A → (A → Bool) → Bool
if_set none test = true
if_set (some a) test = test a

unfoldable pub validate_segmenter : SegmenterSettings → Check Invalid
unfolding validate_template_var each
validate_segmenter s = do
  each validate_template_var s.template_vars
  each validate_name_value s.env_vars
  guard (if_set s.init_segments is_positive) init_segments_too_small

abbrev pub is_none {ℓ} : {A : Type ℓ} → Option A → Bool
is_none none = true
is_none (some a) = false

abbrev pub is_set : Bool → Option Bool → Bool
is_set b none = false
is_set true (some c) = c
is_set false (some c) = not c

unfoldable pub validate_proxy_override : HttpClient → Check Invalid
unfolding each validate_name_value
validate_proxy_override c = do
  guard (is_none c.cache.path) path_not_global
  guard (not (is_set false c.cache.enabled && not (is_none c.cache.ttl))) ttl_without_cache
  guard (if_set c.cache.ttl is_positive) ttl_not_positive
  guard (if_set c.cache.retention (λ r. not (is_negative r))) negative_retention
  each validate_name_value c.headers

abbrev pub holds {ℓ} : {A : Type ℓ} → Option A → (A → Bool) → Bool
holds none test = false
holds (some a) test = test a

unfoldable pub validate_cache_global : CacheSettings → Check Invalid
validate_cache_global cache = do
  guard (holds cache.path is_filled) path_required
  guard (holds cache.ttl is_positive) ttl_not_positive
  guard (holds cache.retention is_positive) retention_not_positive

unfoldable pub validate_proxy_global : HttpClient → Check Invalid
unfolding each validate_name_value validate_cache_global
validate_proxy_global c = if is_set false c.cache.enabled then ok tt else do
  if is_set true c.cache.enabled then validate_cache_global c.cache else ok tt
  each validate_name_value c.headers

unfoldable pub validate_error : ErrorSettings → Check Invalid
unfolding validate_handler
validate_error e = do
  validate_handler e.handler
  validate_handler e.upstream_error
  validate_handler e.rate_limit_exceeded
  validate_handler e.link_expired

-- ValidateGlobal and ValidateOverride, by the check of the HTTP client.
unfoldable pub validate_proxy : (HttpClient → Check Invalid) → Proxy → Check Invalid
unfolding validate_handler validate_segmenter validate_error
validate_proxy validate_client p = do
  guard (not (is_negative p.concurrent_streams)) negative_concurrency
  validate_handler p.stream
  validate_segmenter p.segmenter
  validate_client p.http_client
  validate_error p.error

unfoldable pub validate_global : Proxy → Check Invalid
unfolding validate_proxy validate_proxy_global
validate_global p = validate_proxy validate_proxy_global p

unfoldable pub validate_override : Proxy → Check Invalid
unfolding validate_proxy validate_proxy_override
validate_override p = validate_proxy validate_proxy_override p
