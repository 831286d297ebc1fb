-- ===== src/Config/Valid.antt =====
-- A configuration that passes Validate.
use majmun.Base.{◌≡◌, sym, ◌∙◌, true, List, [], map}
use majmun.Base.Lists.{All, All-imp}
use majmun.Base.Maps.{lookup}
use majmun.Base.Result.{ok, guard, each, >>-eq-ok, >>=-eq-ok}
use majmun.Base.Text.{Text, codes, contains, starts_with, is_filled}
use majmun.Settings.Valid.{
  validate_global, validate_override, unknown_key, secret_required, duplicate_playlist,
  duplicate_epg,
}
use majmun.Config.Rules.{Names, has}
use majmun.Config.{
  Listing, ClientConfig, Config, validate_server, validate_logs, listings_loop, clients_loop,
  validate, validate_client,
}
use majmun.Config.Sound.{
  Unique, client_parts, listings_loop-ListingsAreSound, ListingsAreSound,
  clients_loop-ClientsAreSound,
}

abbrev pub names_of : List Listing → List Text
names_of ls = map (λ l. l.name) ls

-- A client with a name, a secret, and no playlist or EPG that is not there.
pub record ClientIsSound (c : Config) (cl : ClientConfig) : Type 0 where
  pub named : is_filled cl.name ≡ true
  pub secret : is_filled cl.secret ≡ true
  pub playlists : All (λ p. contains (names_of c.playlists) p ≡ true) cl.playlists
  pub epgs : All (λ e. contains (names_of c.epgs) e ≡ true) cl.epgs
  pub proxy : validate_override cl.proxy ≡ ok tt

pub record IsSound (c : Config) : Type 0 where
  pub proxy : validate_global c.proxy ≡ ok tt
  pub playlists_filled : All (λ l. is_filled l.name ≡ true) c.playlists
  pub playlists_unique : Unique (names_of c.playlists)
  pub playlists_proxies : All (λ l. validate_override l.proxy ≡ ok tt) c.playlists
  pub epgs_filled : All (λ l. is_filled l.name ≡ true) c.epgs
  pub epgs_unique : Unique (names_of c.epgs)
  pub epgs_proxies : All (λ l. validate_override l.proxy ≡ ok tt) c.epgs
  pub clients : All (ClientIsSound c) c.clients
  pub clients_unique : Unique (map (λ cl. cl.name) c.clients)
  pub secrets_unique : Unique (map (λ cl. cl.secret) c.clients)

known :
    (ls : List Listing) (names : Names)
    → ListingsAreSound ls [] names
    → (n : Text) → has names n ≡ true
    → contains (names_of ls) n ≡ true
unfolding has lookup
known ls names s n h = sym (s.names n) ∙ h

-- A configuration that passes Validate has playlists, EPGs and clients whose names are not empty and
-- no two of which are the same; the secrets of the clients are not empty and no two are the same;
-- the playlists and EPGs that a client lists are there; and the settings of every proxy are valid.
pub validate-IsSound : (c : Config) → validate c ≡ ok tt → IsSound c
unfolding validate
validate-IsSound c h =
    let (snippets, h1) =
      >>-eq-ok (each (λ key. guard (starts_with (codes ".") key) unknown_key) c.yaml_snippets) _ tt
        h in
    let (server, h2) = >>-eq-ok (validate_server c.server) _ tt h1 in
    let (logs, h3) = >>-eq-ok (validate_logs c.logs) _ tt h2 in
    let (secret, h4) =
      >>-eq-ok (guard (is_filled c.url_generator.secret) secret_required) _ tt h3 in
    let (proxy, h5) = >>-eq-ok (validate_global c.proxy) _ tt h4 in
    let (ps, ps_ok, h6) = >>=-eq-ok (listings_loop duplicate_playlist c.playlists []) _ tt h5 in
    let (es, es_ok, h7) = >>=-eq-ok (listings_loop duplicate_epg c.epgs []) _ tt h6 in
    let (cs, cs_ok, h8) = >>=-eq-ok (clients_loop ps es c.clients [] []) _ tt h7 in
    let p = listings_loop-ListingsAreSound duplicate_playlist c.playlists [] ps ps_ok in
    let e = listings_loop-ListingsAreSound duplicate_epg c.epgs [] es es_ok in
    let s = clients_loop-ClientsAreSound ps es c.clients [] [] cs cs_ok in
    record {
      proxy = proxy;
      playlists_filled = p.filled;
      playlists_unique = p.unique;
      playlists_proxies = p.proxies;
      epgs_filled = e.filled;
      epgs_unique = e.unique;
      epgs_proxies = e.proxies;
      clients = All-imp (client_sound ps es p e) c.clients s.valid;
      clients_unique = s.unique;
      secrets_unique = s.unique_secrets;
    }
  where
    client_sound :
        (ps es : Names)
        → ListingsAreSound c.playlists [] ps
        → ListingsAreSound c.epgs [] es
        → (cl : ClientConfig) → validate_client ps es cl ≡ ok tt
        → ClientIsSound c cl
    client_sound ps es p e cl h =
        let (named, secret, playlists, epgs, proxy) = client_parts ps es cl h in
        record {
          named = named;
          secret = secret;
          playlists = All-imp (known c.playlists ps p) cl.playlists playlists;
          epgs = All-imp (known c.epgs es e) cl.epgs epgs;
          proxy = proxy;
        }
