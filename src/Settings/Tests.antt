-- ===== src/Settings/Tests.antt =====
-- The settings of a server and of one playlist.
use majmun.Base.{◌≡◌, refl, true, none, some, List, [], ◌∷◌}
use majmun.Base.Text.{Text, codes, text_eq}
use majmun.Base.Maps.{lookup, insert}
use majmun.Settings.{
  NameValue, Proxy, no_proxy, merge_proxies, merge_name_values, base_loop, override_loop, add_name,
  name_values,
}
use majmun.Settings.Names.{last_value}
use majmun.Settings.Merged.{last_set, nonempty, merge_proxies_last}
use majmun.Settings.Commands.{Commands, error_command_ignored}

abbrev value_of : Text → Text → NameValue
value_of name value = record { name = name; value = value }

abbrev server_vars : List NameValue
server_vars = value_of (codes "a") (codes "1") ∷ value_of (codes "b") (codes "2") ∷ []

abbrev playlist_vars : List NameValue
playlist_vars = value_of (codes "b") (codes "3") ∷ value_of (codes "c") (codes "4") ∷ []

abbrev with_stream : List NameValue → Proxy → Proxy
with_stream vars p = record p { stream = record p.stream { template_vars = vars } }

abbrev with_error : Text → Proxy → Proxy
with_error command p = record p {
  error = record p.error { handler = record p.error.handler { command = command ∷ [] } };
}

abbrev server : Proxy
server =
    with_error (codes "ffmpeg") (with_stream server_vars (record no_proxy { enabled = some true }))

abbrev playlist : Proxy
playlist = with_error (codes "vlc") (with_stream playlist_vars no_proxy)

-- The order of the base comes first.
merged_vars :
    merge_name_values server_vars playlist_vars
    ≡ value_of (codes "a") (codes "1")
      ∷ value_of (codes "b") (codes "3")
      ∷ value_of (codes "c") (codes "4")
      ∷ []
unfolding merge_name_values base_loop override_loop add_name name_values lookup insert text_eq
merged_vars = refl

merge_proxies_last_example :
    ((merge_proxies (server ∷ playlist ∷ [])).enabled ≡ last_set (some true ∷ none ∷ []))
    × ((merge_proxies (server ∷ playlist ∷ [])).http_client.cache.ttl ≡ last_set (none ∷ none ∷ []))
    × (nonempty (merge_proxies (server ∷ playlist ∷ [])).stream.command
        ≡ last_set (none ∷ none ∷ []))
    × (last_value (codes "b") (merge_proxies (server ∷ playlist ∷ [])).stream.template_vars
        ≡ last_set (last_value (codes "b") server_vars ∷ last_value (codes "b") playlist_vars ∷ []))
    × (last_value (codes "b") (merge_proxies (server ∷ playlist ∷ [])).stream.env_vars
        ≡ last_set (last_value (codes "b") [] ∷ last_value (codes "b") [] ∷ []))
merge_proxies_last_example = merge_proxies_last (server ∷ playlist ∷ []) (codes "b")

error_command_ignored_example :
    Commands (codes "ffmpeg" ∷ []) (merge_proxies (server ∷ playlist ∷ [])).error
error_command_ignored_example =
    error_command_ignored (codes "ffmpeg") [] server (playlist ∷ []) refl (refl, refl, refl)
      ((refl, refl, refl), tt)
