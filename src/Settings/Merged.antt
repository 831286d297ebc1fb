-- ===== src/Settings/Merged.antt =====
-- mergeProxies: what is set later replaces what was set before.
use majmun.Base.{◌≡◌, refl, ap, ◌∙◌, Option, none, some, List, [], ◌∷◌, map}
use majmun.Base.Text.{Text}
use majmun.Settings.{
  Proxy, replace_option, replace_list, no_proxy, merge_handler, merge_handlers, merge_cache,
  merge_proxy, merge_loop, merge_proxies, merge_name_values,
}
use majmun.Settings.Names.{last_value, replace_option-none, merge_name_values-last_value}

-- The last of the values that is set.
abbrev pub last_set {ℓ} : {A : Type ℓ} → List (Option A) → Option A
last_set [] = none
last_set (o ∷ os) = replace_option o (last_set os)

-- A command that is not empty.
abbrev pub nonempty : List Text → Option (List Text)
nonempty [] = none
nonempty (c ∷ command) = some (c ∷ command)

replace_option_assoc {ℓ} :
    {A : Type ℓ} (a b c : Option A)
    → replace_option (replace_option a b) c ≡ replace_option a (replace_option b c)
replace_option_assoc a b none = refl
replace_option_assoc a b (some v) = refl

nonempty-replace_list :
    (a b : List Text) → nonempty (replace_list a b) ≡ replace_option (nonempty a) (nonempty b)
nonempty-replace_list a [] = refl
nonempty-replace_list a (c ∷ b) = refl

module _ {ℓ} {A : Type ℓ} (f : Proxy → Option A)
    (turn : (r p : Proxy) → f (merge_proxy r p) ≡ replace_option (f r) (f p)) where
  merge_loop-last_set :
      (r : Proxy) (proxies : List Proxy)
      → f (merge_loop r proxies) ≡ replace_option (f r) (last_set (map f proxies))
  unfolding merge_loop
  merge_loop-last_set r [] = refl
  merge_loop-last_set r (p ∷ proxies) =
      merge_loop-last_set (merge_proxy r p) proxies
      ∙ ap (λ o. replace_option o (last_set (map f proxies))) (turn r p)
      ∙ replace_option_assoc (f r) (f p) (last_set (map f proxies))

  pub merge_proxies-last_set :
      (proxies : List Proxy)
      → f no_proxy ≡ none
      → f (merge_proxies proxies) ≡ last_set (map f proxies)
  unfolding merge_proxies
  merge_proxies-last_set proxies h =
      merge_loop-last_set no_proxy proxies
      ∙ ap (λ o. replace_option o (last_set (map f proxies))) h
      ∙ replace_option-none (last_set (map f proxies))

-- In the merged settings of proxies the switch, the time to live of the cache, the command of a
-- stream, and each of its template and environment variables is what the last proxy that sets it says.
pub merge_proxies_last :
    (proxies : List Proxy) (name : Text)
    → ((merge_proxies proxies).enabled ≡ last_set (map (λ p. p.enabled) proxies))
      × ((merge_proxies proxies).http_client.cache.ttl
          ≡ last_set (map (λ p. p.http_client.cache.ttl) proxies))
      × (nonempty (merge_proxies proxies).stream.command
          ≡ last_set (map (λ p. nonempty p.stream.command) proxies))
      × (last_value name (merge_proxies proxies).stream.template_vars
          ≡ last_set (map (λ p. last_value name p.stream.template_vars) proxies))
      × (last_value name (merge_proxies proxies).stream.env_vars
          ≡ last_set (map (λ p. last_value name p.stream.env_vars) proxies))
unfolding merge_proxy merge_cache merge_handlers merge_handler merge_name_values last_value
merge_proxies_last proxies name = (
  merge_proxies-last_set (λ p. p.enabled) (λ r p. refl) proxies refl,
  merge_proxies-last_set (λ p. p.http_client.cache.ttl) (λ r p. refl) proxies refl,
  merge_proxies-last_set (λ p. nonempty p.stream.command) (λ r p. commands r p) proxies refl,
  merge_proxies-last_set (λ p. last_value name p.stream.template_vars)
      (λ r p. merge_name_values-last_value name r.stream.template_vars p.stream.template_vars)
      proxies refl,
  merge_proxies-last_set (λ p. last_value name p.stream.env_vars)
      (λ r p. merge_name_values-last_value name r.stream.env_vars p.stream.env_vars) proxies refl,
)
  where
    front : (a : List Text) → replace_list [] a ≡ a
    front [] = refl
    front (c ∷ a) = refl

    commands :
        (r p : Proxy)
        → nonempty (merge_proxy r p).stream.command
          ≡ replace_option (nonempty r.stream.command) (nonempty p.stream.command)
    commands r p =
        nonempty-replace_list (replace_list [] r.stream.command) p.stream.command
        ∙ ap (λ c. replace_option (nonempty c) (nonempty p.stream.command)) (front r.stream.command)
