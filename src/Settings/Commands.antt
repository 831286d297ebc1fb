-- ===== src/Settings/Commands.antt =====
-- mergeProxies: the commands that show errors.
use majmun.Base.{◌≡◌, refl, ap, ◌∙◌, List, [], ◌∷◌}
use majmun.Base.Lists.{All}
use majmun.Base.Text.{Text}
use majmun.Settings.{
  Handler, ErrorSettings, Proxy, no_handler, no_proxy, merge_handler, merge_handlers, merge_error,
  merge_proxy, merge_loop, merge_proxies, replace_list,
}

-- The commands of the single errors are all the same one.
abbrev pub Commands : List Text → ErrorSettings → Type 0
Commands command e =
    (e.rate_limit_exceeded.command ≡ command)
    × (e.link_expired.command ≡ command)
    × (e.upstream_error.command ≡ command)

merge_handlers-command :
    (c : Text) (command : List Text) (a b d : Handler)
    → b.command ≡ c ∷ command
    → d.command ≡ []
    → (merge_handlers no_handler (a ∷ b ∷ d ∷ [])).command ≡ c ∷ command
unfolding merge_handlers merge_handler
merge_handlers-command c command a b d h k =
    ap (λ x. replace_list (replace_list (replace_list [] a.command) b.command) x) k
    ∙ ap (λ x. replace_list (replace_list [] a.command) x) h

merge_handlers-front :
    (c : Text) (command : List Text) (a b d : Handler)
    → a.command ≡ c ∷ command
    → b.command ≡ []
    → d.command ≡ []
    → (merge_handlers no_handler (a ∷ b ∷ d ∷ [])).command ≡ c ∷ command
unfolding merge_handlers merge_handler
merge_handlers-front c command a b d g h k =
    ap (λ x. replace_list (replace_list (replace_list [] a.command) b.command) x) k
    ∙ ap (λ x. replace_list (replace_list [] a.command) x) h
    ∙ ap (λ x. replace_list [] x) g

merge_loop-Commands :
    (c : Text) (command : List Text) (r : Proxy) (proxies : List Proxy)
    → Commands (c ∷ command) r.error
    → All (λ p. Commands [] p.error) proxies
    → Commands (c ∷ command) (merge_loop r proxies).error
unfolding merge_loop merge_proxy merge_error
merge_loop-Commands c command r [] h k = h
merge_loop-Commands c command r (p ∷ proxies) h k =
    merge_loop-Commands c command (merge_proxy r p) proxies
      (
        merge_handlers-command c command (merge_proxy r p).error.handler r.error.rate_limit_exceeded
            p.error.rate_limit_exceeded h.0 k.0.0,
        merge_handlers-command c command (merge_proxy r p).error.handler r.error.link_expired
            p.error.link_expired h.1 k.0.1,
        merge_handlers-command c command (merge_proxy r p).error.handler r.error.upstream_error
            p.error.upstream_error h.2 k.0.2,
      )
      k.1

-- If the first settings have a command for errors in general, and no settings have one for a single
-- error, then each single error keeps that command, whatever command the later settings have for
-- errors in general.
pub error_command_ignored :
    (c : Text) (command : List Text) (server : Proxy) (proxies : List Proxy)
    → server.error.handler.command ≡ c ∷ command
    → Commands [] server.error
    → All (λ p. Commands [] p.error) proxies
    → Commands (c ∷ command) (merge_proxies (server ∷ proxies)).error
unfolding merge_proxies merge_loop merge_proxy merge_error merge_handlers merge_handler
error_command_ignored c command server proxies g h k =
    let general = merge_handlers no_handler (no_handler ∷ server.error.handler ∷ []) in
    let same : general.command ≡ c ∷ command = ap (λ x. replace_list [] x) g in
    merge_loop-Commands c command (merge_proxy no_proxy server) proxies
      (
        merge_handlers-front c command general no_handler server.error.rate_limit_exceeded same refl
            h.0,
        merge_handlers-front c command general no_handler server.error.link_expired same refl h.1,
        merge_handlers-front c command general no_handler server.error.upstream_error same refl h.2,
      )
      k
