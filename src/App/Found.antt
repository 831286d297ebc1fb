-- ===== src/App/Found.antt =====
-- The manager finds a client by its secret.
use majmun.Base.{
  inl, inr, ◌≡◌, refl, ap, sym, ◌∙◌, Bool, true, false, Option, none, some, List, [], ◌∷◌, map,
  arith,
}
use majmun.Base.Lists.{All}
use majmun.Base.Maps.{Map, lookup, insert, lookup-insert}
use majmun.Base.Result.{ok, map_ok}
use majmun.Base.Tests.{if◌then◌else◌, Bool-cases}
use majmun.Base.Text.{Text, contains, is_filled, text_eq, text_eq_iff}
use majmun.Urlgen.{Codec}
use majmun.Config.{ClientConfig, Config, validate}
use majmun.Config.Sound.{Unique}
use majmun.Config.Valid.{ClientIsSound, validate-IsSound}
use majmun.Server.Access.{client_auth}
use majmun.App.{Client}
use majmun.App.Manager.{client, new_manager}
use majmun.App.Built.{client_of, CanBuild, by_secret}
use majmun.App.Complete.{store_of, manager_of, new_manager-manager_of}

-- The client of the configuration with that secret.
abbrev pub with_secret : Text → List ClientConfig → Option ClientConfig
with_secret s [] = none
with_secret s (conf ∷ confs) = if text_eq conf.secret s then some conf else with_secret s confs

abbrev secrets : List ClientConfig → List Text
secrets confs = map (λ conf. conf.secret) confs

absent :
    (s : Text) (confs : List ClientConfig)
    → contains (secrets confs) s ≡ false
    → with_secret s confs ≡ none
unfolding contains
absent s [] h = refl
absent s (conf ∷ confs) h = ground (arith, absent s confs)

not_empty : (s : Text) → is_filled s ≡ true → text_eq s [] ≡ false
unfolding text_eq
not_empty [] h = cc
not_empty (c ∷ s) h = refl

module _ (parses : Text → Bool) (codec : Codec) (c : Config) (store : Option Text) where
  abbrev pub made : Option ClientConfig → Option Client → Option Client
  made none other = other
  made (some conf) other = some (client_of parses codec c store conf)

  lookup-by_secret :
      (s : Text) (confs : List ClientConfig) (m : Map Client)
      → Unique (secrets confs)
      → lookup s (by_secret parses codec c store confs m) ≡ made (with_secret s confs) (lookup s m)
  lookup-by_secret s [] m h = refl
  lookup-by_secret s (conf ∷ confs) m h =
      let cl = client_of parses codec c store conf in
      let later =
        lookup-by_secret s confs (insert conf.secret cl m) h.1
        ∙ ap (made (with_secret s confs)) (lookup-insert conf.secret s cl m) in
      elim (Bool-cases (text_eq conf.secret s)) [
        | inl e ↦
            let gone =
              absent s confs
                (ap (contains (secrets confs)) (sym ((text_eq_iff conf.secret s).0 e)) ∙ h.0) in
            later ∙ rw (e, gone) refl
        | inr e ↦ later ∙ rw e refl
      ]

  unsecret : (confs : List ClientConfig) → All (ClientIsSound c) confs → with_secret [] confs ≡ none
  unsecret [] h = refl
  unsecret (conf ∷ confs) h = rw (not_empty conf.secret h.0.secret) (unsecret confs h.1)

manager-with_secret :
    (parses : Text → Bool) (codec : Codec) (opens : Text → Bool) (c : Config) (s : Text)
    → validate c ≡ ok tt
    → client_auth (client (manager_of parses codec opens c)) (some s)
      ≡ made parses codec c (store_of c) (with_secret s c.clients) none
unfolding client_auth client lookup
manager-with_secret parses codec opens c [] h =
    ap (λ o. made parses codec c (store_of c) o none)
      (sym (unsecret parses codec c (store_of c) c.clients (validate-IsSound c h).clients))
manager-with_secret parses codec opens c (x ∷ s) h =
    lookup-by_secret parses codec c (store_of c) (x ∷ s) c.clients []
      (validate-IsSound c h).secrets_unique

-- Where the configuration is valid, the commands of its playlists can be parsed and the directory of
-- the cache can be opened, NewManager gives a manager in which the middleware finds for a secret exactly
-- the client that is made of the client of the configuration with that secret, and none if no client
-- has it.
pub client_auth-with_secret :
    (parses : Text → Bool) (codec : Codec) (opens : Text → Bool) (c : Config) (s : Text)
    → validate c ≡ ok tt
    → All (CanBuild parses codec c (store_of c)) c.clients
    → ((path : Text) → opens path ≡ true)
    → map_ok (λ m. client_auth (client m) (some s)) (new_manager parses codec opens c)
      ≡ ok (made parses codec c (store_of c) (with_secret s c.clients) none)
client_auth-with_secret parses codec opens c s h build all =
    rw (new_manager-manager_of parses codec opens c h build all)
      (ap (λ o. ok o) (manager-with_secret parses codec opens c s h))
