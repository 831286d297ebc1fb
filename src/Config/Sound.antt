-- ===== src/Config/Sound.antt =====
-- What a configuration that passes its validation is like.
use majmun.Base.{◌≡◌, refl, Bool, true, false, not, ◌&&◌, ◌||◌, some, List, [], ◌∷◌, map, arith}
use majmun.Base.Lists.{All, get_or}
use majmun.Base.Maps.{lookup, insert, lookup-insert}
use majmun.Base.Result.{ok, guard, each, >>-eq-ok, guard-eq-ok}
use majmun.Base.Tests.{if◌then◌else◌}
use majmun.Base.Text.{Text, contains, is_filled, text_eq, text_eq_iff}
use majmun.Rules.Config.{is_nil}
use majmun.Settings.Valid.{
  Invalid, validate_override, unknown_playlist, unknown_epg, name_required, secret_required,
  sources_required, empty_source, duplicate_client, duplicate_secret,
}
use majmun.Config.Rules.{Names, has}
use majmun.Config.{
  Listing, ClientConfig, validate_listing, listings_loop, validate_client, clients_loop,
}

-- No name stands twice.
abbrev pub Unique : List Text → Type 0
Unique [] = Unit {0}
Unique (n ∷ ns) = (contains ns n ≡ false) × Unique ns

abbrev pub IsNew : Names → List Text → Type 0
IsNew names ns = All (λ n. has names n ≡ false) ns

has-insert :
    (n m : Text) (names : Names) → has (insert n true names) m ≡ (text_eq n m || has names m)
unfolding has
has-insert n m names = rw (lookup-insert n m true names) (go (text_eq n m))
  where
    go :
        (b : Bool)
        → get_or (if b then some true else lookup m names) false
          ≡ (b || get_or (lookup m names) false)
    go true = refl
    go false = refl

-- What is new beside `n` is new, and is not `n`.
IsNew-insert :
    (n : Text) (names : Names) (ns : List Text)
    → IsNew (insert n true names) ns
    → IsNew names ns × (contains ns n ≡ false)
unfolding contains
IsNew-insert n names [] h = (tt, refl)
IsNew-insert n names (m ∷ ns) h =
    let (rest, absent) = IsNew-insert n names ns h.1 in
    (
      (ground (arith, h.0, has-insert n m names), rest),
      ground (arith, h.0, has-insert n m names, text_eq_iff n m, text_eq_iff m n, absent),
    )

not_both : (a b : Bool) → a ≡ true → not (a && b) ≡ true → b ≡ false
not_both a b h k = ground arith

each-guard :
    (f : Text → Bool) (e : Invalid) (ns : List Text)
    → each (λ n. guard (f n) e) ns ≡ ok tt
    → All (λ n. f n ≡ true) ns
unfolding each
each-guard f e [] h = tt
each-guard f e (n ∷ ns) h =
    let (first, rest) = >>-eq-ok (guard (f n) e) _ tt h in
    (guard-eq-ok (f n) e first, each-guard f e ns rest)

listing_parts :
    (l : Listing)
    → validate_listing l ≡ ok tt
    → (is_filled l.name ≡ true) × (validate_override l.proxy ≡ ok tt)
unfolding validate_listing
listing_parts l h =
    let (named, rest) = >>-eq-ok (guard (is_filled l.name) name_required) _ tt h in
    let (some_source, more) =
      >>-eq-ok (guard (not (is_nil l.sources)) sources_required) _ tt rest in
    let (sources, proxy) =
      >>-eq-ok (each (λ source. guard (is_filled source) empty_source) l.sources) _ tt more in
    (guard-eq-ok _ name_required named, proxy)

-- What the loop over the listings has found out when it ends without an error.
pub record ListingsAreSound (ls : List Listing) (before after : Names) : Type 0 where
  pub filled : All (λ l. is_filled l.name ≡ true) ls
  pub proxies : All (λ l. validate_override l.proxy ≡ ok tt) ls
  pub new : IsNew before (map (λ l. l.name) ls)
  pub unique : Unique (map (λ l. l.name) ls)
  pub names : (n : Text) → has after n ≡ (has before n || contains (map (λ l. l.name) ls) n)

pub listings_loop-ListingsAreSound :
    (duplicate : Invalid) (ls : List Listing) (before after : Names)
    → listings_loop duplicate ls before ≡ ok after
    → ListingsAreSound ls before after
unfolding listings_loop contains
listings_loop-ListingsAreSound duplicate [] before after h = record {
  filled = tt;
  proxies = tt;
  new = tt;
  unique = tt;
  names = λ n. ground arith;
}
listings_loop-ListingsAreSound duplicate (l ∷ ls) before after h =
    let (valid, rest) = >>-eq-ok (validate_listing l) _ after h in
    let (filled, proxy) = listing_parts l valid in
    let (fresh, more) =
      >>-eq-ok (guard (not (is_filled l.name && has before l.name)) duplicate) _ after rest in
    let more' : listings_loop duplicate ls (insert l.name true before) ≡ ok after =
      rw filled at more in
    let s = listings_loop-ListingsAreSound duplicate ls (insert l.name true before) after more' in
    let (new, absent) = IsNew-insert l.name before (map (λ k. k.name) ls) s.new in
    record {
      filled = (filled, s.filled);
      proxies = (proxy, s.proxies);
      new = (
        not_both (is_filled l.name) (has before l.name) filled (guard-eq-ok _ duplicate fresh),
        new,
      );
      unique = (absent, s.unique);
      names = λ n. ground (arith, s.names n, has-insert l.name n before);
    }

pub client_parts :
    (playlist_names epg_names : Names) (c : ClientConfig)
    → validate_client playlist_names epg_names c ≡ ok tt
    → (is_filled c.name ≡ true)
      × (is_filled c.secret ≡ true)
      × All (λ p. has playlist_names p ≡ true) c.playlists
      × All (λ e. has epg_names e ≡ true) c.epgs
      × (validate_override c.proxy ≡ ok tt)
unfolding validate_client
client_parts playlist_names epg_names c h =
    let (named, rest) = >>-eq-ok (guard (is_filled c.name) name_required) _ tt h in
    let (secret, more) = >>-eq-ok (guard (is_filled c.secret) secret_required) _ tt rest in
    let (playlists, last) =
      >>-eq-ok (each (λ p. guard (has playlist_names p) unknown_playlist) c.playlists) _ tt more in
    let (epgs, proxy) =
      >>-eq-ok (each (λ e. guard (has epg_names e) unknown_epg) c.epgs) _ tt last in
    (
      guard-eq-ok _ name_required named,
      guard-eq-ok _ secret_required secret,
      each-guard (has playlist_names) unknown_playlist c.playlists playlists,
      each-guard (has epg_names) unknown_epg c.epgs epgs,
      proxy,
    )

pub record ClientsAreSound (playlist_names epg_names : Names) (cs : List ClientConfig)
    (before secrets : Names) : Type 0 where
  pub valid : All (λ c. validate_client playlist_names epg_names c ≡ ok tt) cs
  pub new : IsNew before (map (λ c. c.name) cs)
  pub new_secrets : IsNew secrets (map (λ c. c.secret) cs)
  pub unique : Unique (map (λ c. c.name) cs)
  pub unique_secrets : Unique (map (λ c. c.secret) cs)

pub clients_loop-ClientsAreSound :
    (playlist_names epg_names : Names) (cs : List ClientConfig) (before secrets after : Names)
    → clients_loop playlist_names epg_names cs before secrets ≡ ok after
    → ClientsAreSound playlist_names epg_names cs before secrets
unfolding clients_loop
clients_loop-ClientsAreSound playlist_names epg_names [] before secrets after h = record {
  valid = tt;
  new = tt;
  new_secrets = tt;
  unique = tt;
  unique_secrets = tt;
}
clients_loop-ClientsAreSound playlist_names epg_names (c ∷ cs) before secrets after h =
    let (valid, rest) = >>-eq-ok (validate_client playlist_names epg_names c) _ after h in
    let secret = (client_parts playlist_names epg_names c valid).1 in
    let (fresh, more) = >>-eq-ok (guard (not (has before c.name)) duplicate_client) _ after rest in
    let (fresh_secret, last) =
      >>-eq-ok (guard (not (is_filled c.secret && has secrets c.secret)) duplicate_secret) _ after
        more in
    let last' : clients_loop playlist_names epg_names cs (insert c.name true before)
          (insert c.secret true secrets)
        ≡ ok after =
      rw secret at last in
    let s =
      clients_loop-ClientsAreSound playlist_names epg_names cs (insert c.name true before)
        (insert c.secret true secrets) after last' in
    let (new, absent) = IsNew-insert c.name before (map (λ k. k.name) cs) s.new in
    let (new_secrets, absent_secret) =
      IsNew-insert c.secret secrets (map (λ k. k.secret) cs) s.new_secrets in
    record {
      valid = (valid, s.valid);
      new = (not_both true (has before c.name) refl (guard-eq-ok _ duplicate_client fresh), new);
      new_secrets = (
        not_both (is_filled c.secret) (has secrets c.secret) secret
            (guard-eq-ok _ duplicate_secret fresh_secret),
        new_secrets,
      );
      unique = (absent, s.unique);
      unique_secrets = (absent_secret, s.unique_secrets);
    }
