-- ===== src/App/Cached.antt =====
-- The times that an HTTP client with a cache is made with.
use majmun.Base.{
  inl, inr, ◌≡◌, refl, subst, ap, ◌∙◌, Bool, true, false, not, ◌&&◌, Option, none, some, List, [],
  ◌∷◌, map, arith,
}
use majmun.Base.Int64.{Int64, is_positive, is_negative}
use majmun.Base.Lists.{All, All-imp, get_or}
use majmun.Base.Result.{ok, guard, >>-eq-ok, guard-eq-ok}
use majmun.Base.Tests.{Bool-cases}
use majmun.Base.Text.{Text, text_eq}
use majmun.Urlgen.{Codec}
use majmun.Config.{Config, Listing}
use majmun.Settings.{Proxy, merge_proxies, merge_proxy, merge_cache}
use majmun.Settings.Merged.{last_set, merge_proxies-last_set}
use majmun.Settings.Valid.{
  validate_global, validate_proxy_global, validate_override, validate_proxy_override, is_none,
  if_set, is_set, holds, path_not_global, ttl_without_cache, ttl_not_positive, negative_retention,
}
use majmun.Config.{validate}
use majmun.Config.Valid.{validate-IsSound}
use majmun.App.Built.{bare_client, client_of, named, chosen}
use majmun.App.{
  find_listing, playlist_provider, epg_provider, Provider, HttpKind, direct, cached,
  http_client_options, new_http_client, merged_proxy,
}
use majmun.App.Complete.{validate_proxy-client, enabled_cache, store_of, manager_of}

abbrev cache_ttl : Proxy → Option Int64
cache_ttl p = p.http_client.cache.ttl

abbrev cache_retention : Proxy → Option Int64
cache_retention p = p.http_client.cache.retention

abbrev is_kept : Int64 → Bool
is_kept r = not (is_negative r)

-- What an override says of the times holds.
override_times :
    (p : Proxy)
    → validate_override p ≡ ok tt
    → (if_set p.http_client.cache.ttl is_positive ≡ true)
      × (if_set p.http_client.cache.retention is_kept ≡ true)
unfolding validate_override validate_proxy_override
override_times p h =
    let c = p.http_client in
    let valid = validate_proxy-client validate_proxy_override p h in
    let (path, h1) = >>-eq-ok (guard (is_none c.cache.path) path_not_global) _ tt valid in
    let (both, h2) =
      >>-eq-ok
        (guard (not (is_set false c.cache.enabled && not (is_none c.cache.ttl))) ttl_without_cache)
        _ tt h1 in
    let (ttl, h3) = >>-eq-ok (guard (if_set c.cache.ttl is_positive) ttl_not_positive) _ tt h2 in
    let (retention, headers) =
      >>-eq-ok (guard (if_set c.cache.retention is_kept) negative_retention) _ tt h3 in
    (guard-eq-ok _ ttl_not_positive ttl, guard-eq-ok _ negative_retention retention)

-- A test that the first value passes, and the others where they are set, is passed by the last set.
last_of_three :
    (test : Int64 → Bool) (a b d : Option Int64)
    → holds a test ≡ true
    → if_set b test ≡ true
    → if_set d test ≡ true
    → test (get_or (last_set (a ∷ b ∷ d ∷ [])) 0) ≡ true
last_of_three test none b d h k l = cc
last_of_three test (some x) none none h k l = h
last_of_three test (some x) (some y) none h k l = k
last_of_three test (some x) none (some z) h k l = l
last_of_three test (some x) (some y) (some z) h k l = l

weaken : (o : Option Int64) → holds o is_positive ≡ true → holds o is_kept ≡ true
weaken none h = cc
weaken (some n) h = ground arith

-- What a cached client is made with.
abbrev pub HasTimes : HttpKind → Type 0
HasTimes (direct headers) = Unit {0}
HasTimes (cached o) = (is_positive o.ttl ≡ true) × (is_negative o.retention ≡ false)

cached_times :
    (store : Option Text) (p : Proxy)
    → is_positive (get_or p.http_client.cache.ttl 0) ≡ true
    → not (is_negative (get_or p.http_client.cache.retention 0)) ≡ true
    → HasTimes (new_http_client store p)
unfolding new_http_client http_client_options
cached_times none p t r = tt
cached_times (some path) p t r = elim (Bool-cases (get_or p.http_client.cache.enabled false)) [
  | inl e ↦ rw (e, new_http_client) (t, ground arith)
  | inr e ↦ rw (e, new_http_client) tt
]

new_http_client-HasTimes :
    (c : Config) (l : Listing) (client : Proxy)
    → validate_global c.proxy ≡ ok tt
    → validate_override l.proxy ≡ ok tt
    → validate_override client ≡ ok tt
    → HasTimes (new_http_client (store_of c) (merged_proxy c client l))
unfolding merged_proxy merge_proxy merge_cache new_http_client validate_global
new_http_client-HasTimes c l client g h k =
    let proxies = c.proxy ∷ l.proxy ∷ client ∷ [] in
    let valid = validate_proxy-client validate_proxy_global c.proxy g in
    let (ttl, retention) = override_times l.proxy h in
    let (client_ttl, client_retention) = override_times client k in
    elim (Bool-cases (get_or c.proxy.http_client.cache.enabled false)) [
      | inl e ↦
          let (path, server_ttl, server_retention) = enabled_cache c.proxy.http_client e valid in
          cached_times (store_of c) (merge_proxies proxies)
            (ap (λ o. is_positive (get_or o 0))
                (merge_proxies-last_set cache_ttl (λ r p. refl) proxies refl)
              ∙ last_of_three is_positive (cache_ttl c.proxy) (cache_ttl l.proxy) (cache_ttl client)
                  server_ttl ttl client_ttl)
            (ap (λ o. not (is_negative (get_or o 0)))
                (merge_proxies-last_set cache_retention (λ r p. refl) proxies refl)
              ∙ last_of_three is_kept (cache_retention c.proxy) (cache_retention l.proxy)
                  (cache_retention client) (weaken (cache_retention c.proxy) server_retention)
                  retention client_retention)
      | inr e ↦ rw e tt
    ]

-- What holds for all listings holds for those that are chosen.
module _ (P : Listing → Type 0) where
  found-All :
      (n : Text) (ls : List Listing) → All P ls → (l : Listing) → find_listing n ls ≡ some l → P l
  unfolding find_listing
  found-All n [] h l e = cc
  found-All n (k ∷ ls) h l e = elim (Bool-cases (text_eq k.name n)) [
    | inl same ↦ subst P (some_inj k l (rw same at e)) h.0
    | inr other ↦ found-All n ls h.1 l (rw other at e)
  ]
    where
      some_inj : (a b : Listing) → some a ≡ some b → a ≡ b
      some_inj a b e = cc

  named-All : (ls : List Listing) (ns : List Text) → All P ls → All P (named ls ns)
  named-All ls [] h = tt
  named-All ls (n ∷ ns) h = with_found (find_listing n ls) (found-All n ls h) (named-All ls ns h)
    where
      with_found :
          (o : Option Listing)
          → ((l : Listing) → o ≡ some l → P l)
          → All P (named ls ns)
          → All P (elim o [ none ↦ named ls ns | some l ↦ l ∷ named ls ns ])
      with_found none e rest = rest
      with_found (some l) e rest = (e l refl, rest)

  chosen-All : (ls : List Listing) (ns : List Text) → All P ls → All P (chosen ls ns)
  chosen-All ls [] h = h
  chosen-All ls (n ∷ ns) h = named-All ls (n ∷ ns) h

All-map {ℓ} :
    {A B : Type ℓ} (P : B → Type 0) (f : A → B) (xs : List A)
    → All (λ x. P (f x)) xs
    → All P (map f xs)
All-map P f [] h = tt
All-map P f (x ∷ xs) h = (h.0, All-map P f xs h.1)

-- In the manager of a configuration that passes Validate, the HTTP client of every playlist and EPG
-- of every client has no cache, or it has a time to live that is greater than zero and a retention
-- that is not negative.
pub manager_of-HasTimes :
    (parses : Text → Bool) (codec : Codec) (opens : Text → Bool) (c : Config)
    → validate c ≡ ok tt
    → All
        (λ cl.
          All (λ p. HasTimes p.http_client) cl.playlist_providers
          × All (λ p. HasTimes p.http_client) cl.epg_providers)
        (manager_of parses codec opens c).clients
unfolding playlist_provider epg_provider
manager_of-HasTimes parses codec opens c h =
    let s = validate-IsSound c h in
    let IsTimed : Provider → Type 0 = λ p. HasTimes p.http_client in
    let bare = bare_client parses codec c (store_of c) in
    All-map (λ cl. All IsTimed cl.playlist_providers × All IsTimed cl.epg_providers)
      (client_of parses codec c (store_of c)) c.clients
      (All-imp
        (λ conf k. (
          All-map IsTimed (playlist_provider parses c (bare conf))
              (chosen c.playlists conf.playlists)
              (chosen-All
                (λ l. HasTimes (new_http_client (store_of c) (merged_proxy c conf.proxy l)))
                c.playlists conf.playlists
                (All-imp (λ l v. new_http_client-HasTimes c l conf.proxy s.proxy v k.proxy)
                  c.playlists s.playlists_proxies)),
          All-map IsTimed (epg_provider parses c (bare conf)) (chosen c.epgs conf.epgs) (
              chosen-All
                (λ l. HasTimes (new_http_client (store_of c) (merged_proxy c conf.proxy l))) c.epgs
                conf.epgs
                (All-imp (λ l v. new_http_client-HasTimes c l conf.proxy s.proxy v k.proxy) c.epgs
                  s.epgs_proxies)),
        ))
        c.clients s.clients)
