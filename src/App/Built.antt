-- ===== src/App/Built.antt =====
-- The manager that is made out of a valid configuration.
use majmun.Base.{
  inl, inr, ◌≡◌, refl, ap, sym, ◌∙◌, Bool, true, Option, none, some, List, [], ◌∷◌, ◌++◌, map,
}
use mathlib.Core.List.{append-nil, append_assoc}
use majmun.Base.Lists.{All}
use majmun.Base.Maps.{Map, insert}
use majmun.Base.Result.{Result, ok, guard, ◌>>◌, ◌>>=◌}
use majmun.Base.Tests.{Bool-cases}
use majmun.Base.Text.{Text, codes, contains, text_eq}
use majmun.Urlgen.{Codec}
use majmun.Config.{Listing, ClientConfig, Config}
use majmun.Config.Valid.{names_of, ClientIsSound}
use majmun.App.Manager.{Manager, create_url_generator, new_client, create_client, init_clients}
use majmun.App.{
  AppError, Provider, Client, new_semaphore, find_listing, new_streamers, playlist_provider,
  epg_provider, add_playlist_provider, add_epg_provider, add_each, add_named, add_providers,
  init_client_providers, merged_proxy, playlist_not_found, epg_not_found, secret_empty,
}

-- The listings that a client gets: all of them, or those that it names, in its order.
abbrev pub named : List Listing → List Text → List Listing
named ls [] = []
named ls (n ∷ ns) = elim (find_listing n ls) [ none ↦ named ls ns | some l ↦ l ∷ named ls ns ]

abbrev pub chosen : List Listing → List Text → List Listing
chosen ls [] = ls
chosen ls (n ∷ ns) = named ls (n ∷ ns)

named-found :
    (ls : List Listing) (n : Text) (ns : List Text) (l : Listing)
    → find_listing n ls ≡ some l
    → named ls (n ∷ ns) ≡ l ∷ named ls ns
named-found ls n ns l same = ap (λ o. elim o [ none ↦ named ls ns | some k ↦ k ∷ named ls ns ]) same

-- A listing that is there is found, and what holds for all holds for it.
found :
    {P : Listing → Type 0} (n : Text) (ls : List Listing)
    → contains (names_of ls) n ≡ true
    → All P ls
    → (l : Listing) × (find_listing n ls ≡ some l) × P l
unfolding contains find_listing
found n [] h k = cc
found n (l ∷ ls) h k = elim (Bool-cases (text_eq l.name n)) [
  | inl e ↦ (l, rw e refl, k.0)
  | inr e ↦ (let (m, same, p) = found n ls (rw e at h) k.1 in (m, rw e same, p))
]

-- Either loop adds the providers of its listings at the end.
module _ (add : Client → Listing → Result AppError Client) (not_found : AppError)
    (P : Listing → Type 0) (put : List Provider → Client) (provider : Listing → Provider)
    (adds : (ps : List Provider) (l : Listing)
      → P l
      → add (put ps) l ≡ ok (put (ps ++ provider l ∷ []))) where
  put_assoc :
      (ps : List Provider) (l : Listing) (rest : List Provider)
      → put ((ps ++ provider l ∷ []) ++ rest) ≡ put (ps ++ provider l ∷ rest)
  put_assoc ps l rest = ap put (append_assoc ps (provider l ∷ []) rest)

  add_each_lem :
      (ls : List Listing) (ps : List Provider)
      → All P ls
      → add_each add not_found ls (put ps) ≡ ok (put (ps ++ map provider ls))
  unfolding add_each
  add_each_lem [] ps h = ap (λ qs. ok (put qs)) (sym (append-nil ps))
  add_each_lem (l ∷ ls) ps h =
      rw (adds ps l h.0, add_each)
        (add_each_lem ls (ps ++ provider l ∷ []) h.1 ∙ ap ok (put_assoc ps l (map provider ls)))

  add_named_lem :
      (ls : List Listing) (ns : List Text) (ps : List Provider)
      → All P ls
      → All (λ n. contains (names_of ls) n ≡ true) ns
      → add_named add not_found ls ns (put ps) ≡ ok (put (ps ++ map provider (named ls ns)))
  unfolding add_named
  add_named_lem ls [] ps h k = ap (λ qs. ok (put qs)) (sym (append-nil ps))
  add_named_lem ls (n ∷ ns) ps h k =
      let (l, same, p) = found n ls k.0 h in
      rw (same, add_named)
        (rw (adds ps l p) (
          add_named_lem ls ns (ps ++ provider l ∷ []) h k.1
          ∙ ap ok (put_assoc ps l (map provider (named ls ns)))
          ∙ ap (λ ks. ok (put (ps ++ map provider ks))) (sym (named-found ls n ns l same))))

  add_providers_lem :
      (ls : List Listing) (ns : List Text)
      → All P ls
      → All (λ n. contains (names_of ls) n ≡ true) ns
      → add_providers add not_found ls ns (put []) ≡ ok (put (map provider (chosen ls ns)))
  unfolding add_providers
  add_providers_lem ls [] h k = add_each_lem ls [] h
  add_providers_lem ls (n ∷ ns) h k = add_named_lem ls (n ∷ ns) [] h k

trivial : (ls : List Listing) → All (λ l. Unit {0}) ls
trivial [] = tt
trivial (l ∷ ls) = (tt, trivial ls)

module _ (parses : Text → Bool) (codec : Codec) (c : Config) (store : Option Text) where
  -- A client with no providers.
  abbrev pub bare_client : ClientConfig → Client
  bare_client conf = record {
    name = conf.name;
    secret = conf.secret;
    semaphore = new_semaphore conf.proxy.concurrent_streams;
    playlist_providers = [];
    epg_providers = [];
    proxy = conf.proxy;
    epg_link = c.server.public_url ++ codes "/" ++ conf.secret ++ codes "/epg.xml.gz";
    generator = create_url_generator parses codec c store conf.secret;
    cache_store = store;
  }

  -- A client with a provider for each of its listings.
  abbrev pub client_of : ClientConfig → Client
  client_of conf = record (bare_client conf) {
    playlist_providers =
        map (playlist_provider parses c (bare_client conf)) (chosen c.playlists conf.playlists);
    epg_providers = map (epg_provider parses c (bare_client conf)) (chosen c.epgs conf.epgs);
  }

  -- The commands of a listing for a client can be parsed.
  abbrev pub CanBuild : ClientConfig → Type 0
  CanBuild conf = All (λ l. new_streamers parses (merged_proxy c conf.proxy l) ≡ ok tt) c.playlists

  create_client-client_of :
      (conf : ClientConfig)
      → ClientIsSound c conf
      → CanBuild conf
      → create_client parses codec c store conf ≡ ok (client_of conf)
  unfolding create_client new_client init_client_providers add_playlist_provider add_epg_provider
      playlist_provider epg_provider
  create_client-client_of conf s h =
      let cl = bare_client conf in
      let playlists =
        add_providers_lem (add_playlist_provider parses c) playlist_not_found
          (λ l. new_streamers parses (merged_proxy c conf.proxy l) ≡ ok tt)
          (λ ps. record cl { playlist_providers = ps }) (playlist_provider parses c cl)
          (λ ps l p. rw p refl) c.playlists conf.playlists h s.playlists in
      let d = record cl {
        playlist_providers =
            map (playlist_provider parses c cl) (chosen c.playlists conf.playlists);
      } in
      let epgs =
        add_providers_lem (add_epg_provider parses c) epg_not_found (λ l. Unit {0})
          (λ ps. record d { epg_providers = ps }) (epg_provider parses c cl) (λ ps l p. refl) c.epgs
          conf.epgs (trivial c.epgs) s.epgs in
      let epgs_of : Client → Result AppError Client =
        add_providers (add_epg_provider parses c) epg_not_found c.epgs conf.epgs in
      let rest : Client → Result AppError Client = λ k.
        add_providers (add_playlist_provider parses c) playlist_not_found c.playlists conf.playlists
          k
        >>= epgs_of in
      ap (λ b. (guard b secret_empty >> ok cl) >>= rest) s.secret
      ∙ ap (λ r. r >>= epgs_of) playlists
      ∙ epgs

  -- The map by secret, behind `m`.
  abbrev pub by_secret : List ClientConfig → Map Client → Map Client
  by_secret [] m = m
  by_secret (conf ∷ confs) m = by_secret confs (insert conf.secret (client_of conf) m)

  pub init_clients-client_of :
      (confs : List ClientConfig) (m : Manager)
      → All (ClientIsSound c) confs
      → All CanBuild confs
      → init_clients parses codec c store confs m
        ≡ ok (record m {
          clients = m.clients ++ map client_of confs;
          secret_to_client = by_secret confs m.secret_to_client;
        })
  unfolding init_clients
  init_clients-client_of [] m s h =
      ap (λ cs. ok (record m { clients = cs })) (sym (append-nil m.clients))
  init_clients-client_of (conf ∷ confs) m s h =
      let d = record m {
        clients = m.clients ++ client_of conf ∷ [];
        secret_to_client = insert conf.secret (client_of conf) m.secret_to_client;
      } in
      rw (create_client-client_of conf s.0 h.0, init_clients)
        (init_clients-client_of confs d s.1 h.1
          ∙ ap
              (λ cs.
                ok (record d {
                  clients = cs;
                  secret_to_client = by_secret confs d.secret_to_client;
                }))
              (append_assoc m.clients (client_of conf ∷ []) (map client_of confs)))
