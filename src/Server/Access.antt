-- ===== src/Server/Access.antt =====
-- internal/server/middleware.go and the lookup of providers in internal/app/client.go: who may use a
-- link. `expired_streamer` is what the command for expired links writes, if there is one.
pub mod Granted
use majmun.Base.{ℕ, Bool, true, false, Option, none, some, List, [], ◌∷◌}
use majmun.Base.Result.{ok, err}
use majmun.Base.Tests.{if◌then◌else◌}
use majmun.Base.Text.{Text, text_eq}
use majmun.Server.Stream.{Playlist, Provider, playlist, epg}
use majmun.Urlgen.Types.{Data, RequestType, ProviderInfo, ProviderType, Stream}
use majmun.Urlgen.{Codec, Generator, Error, expired_stream_url, decrypt}

pub record Client : Type 0 where
  pub secret : Text
  pub generator : Generator
  pub playlist_providers : List Playlist
  pub epg_providers : List Text

-- What a middleware decides. `granted` calls the handler behind it.
pub data Access : Type 0 where
  forbidden unauthorized : Access
  expired_video : Text → Access
  granted : Client → Provider → Data → Access

find_playlist : Text → List Playlist → Option Provider
find_playlist name [] = none
find_playlist name (p ∷ ps) =
    let rest = find_playlist name ps in if text_eq name p.name then some (playlist p) else rest

find_epg : Text → List Text → Option Provider
find_epg name [] = none
find_epg name (p ∷ ps) = let rest = find_epg name ps in if text_eq name p then some epg else rest

unfoldable pub get_provider : Client → ProviderType → Text → Option Provider
unfolding find_playlist find_epg
get_provider c ProviderType.playlist name = find_playlist name c.playlist_providers
get_provider c ProviderType.epg name = find_epg name c.epg_providers

first_info : List Stream → Option ProviderInfo
first_info [] = none
first_info (s ∷ ss) = some s.provider_info

info_of : RequestType → Data → Option ProviderInfo
unfolding first_info
info_of RequestType.stream d = first_info d.stream_data.streams
info_of RequestType.file d = some d.file.provider_info

unfoldable pub get_provider_from_data : Client → Option Data → Option Provider
unfolding info_of get_provider
get_provider_from_data c none = none
get_provider_from_data c (some d) = elim (info_of d.request_type d) [
  | none ↦ none
  | some info ↦ get_provider c info.provider_type info.provider_name
]

-- The client of a secret, by the manager's map.
unfoldable pub client_auth {ℓ} : {C : Type ℓ} → (Text → Option C) → Option Text → Option C
client_auth client_of none = none
client_auth client_of (some []) = none
client_auth client_of (some (c ∷ secret)) = client_of (c ∷ secret)

-- Does an error end the search?
unfoldable pub is_expired_stream : Error → Bool
is_expired_stream expired_stream_url = true
is_expired_stream _ = false

module _ (codec : Codec) (now : ℕ) (expired_streamer : Provider → Option Text) (token : Text) where
  -- Decrypt returns no data beside the error that a link has expired.
  unfoldable pub expired_answer : Client → Access
  expired_answer c = elim (get_provider_from_data c none) [
    | none ↦ unauthorized
    | some p ↦ elim (expired_streamer p) [ none ↦ unauthorized | some video ↦ expired_video video ]
  ]

  unfoldable pub client_loop : List Client → Access
  unfolding is_expired_stream
  client_loop [] = unauthorized
  client_loop (c ∷ cs) =
      let rest = client_loop cs in
      elim (decrypt codec c.generator now token) [
        | ok d ↦ elim (get_provider_from_data c (some d)) [ none ↦ rest | some p ↦ granted c p d ]
        | err e ↦ if is_expired_stream e then expired_answer c else rest
      ]

-- `token` is the variable of the route, if it is there.
unfoldable pub proxy_auth :
    Codec → ℕ → (Provider → Option Text) → List Client → Option Text → Access
proxy_auth codec now expired_streamer clients none = forbidden
proxy_auth codec now expired_streamer clients (some []) = forbidden
proxy_auth codec now expired_streamer clients (some (t ∷ token)) =
    client_loop codec now expired_streamer (t ∷ token) clients
