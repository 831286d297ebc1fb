-- ===== src/Server/Access/Granted.antt =====
-- Who is let in by a link.
use majmun.Base.{
  ℕ, ◌≡◌, ◌≢◌, ◌↔◌, refl, ap, sym, ◌∙◌, ◌⊎◌, inl, inr, true, false, Option, none, some, List, [],
  ◌∷◌, ◌++◌, arith,
}
use majmun.Base.Lists.{All}
use majmun.Base.Result.{ok, err, Result-cases}
use majmun.Base.Tests.{Option-cases, Bool-cases}
use majmun.Base.Text.{Text}
use majmun.Server.Access.{
  Client, Access, granted, unauthorized, get_provider_from_data, client_loop, proxy_auth,
  is_expired_stream, expired_answer,
}
use majmun.Server.Stream.{Provider}
use majmun.Urlgen.Types.{Data}
use majmun.Urlgen.{Codec, Error, expired_stream_url, decrypt}

not_expired : (e : Error) → e ≢ expired_stream_url → is_expired_stream e ≡ false
unfolding is_expired_stream
not_expired expired_stream_url h = absurd (h refl)
not_expired _ h = refl

is_expired : (e : Error) → is_expired_stream e ≡ true → e ≡ expired_stream_url
unfolding is_expired_stream
is_expired expired_stream_url h = refl
is_expired _ h = cc

is_other : (e : Error) → is_expired_stream e ≡ false → e ≢ expired_stream_url
unfolding is_expired_stream
is_other expired_stream_url h same = cc
is_other _ h same = cc

module _ (codec : Codec) (now : ℕ) (token : Text) where
  -- A client whose provider a token names.
  pub record Opens (c : Client) (p : Provider) (d : Data) : Type 0 where
    pub opens : decrypt codec c.generator now token ≡ ok d
    pub provides : get_provider_from_data c (some d) ≡ some p

  -- A client that the search passes over: its key does not open the token, or opens it to something
  -- else than an expired stream of it and names no provider of it.
  abbrev pub Passes : Client → Type 0
  Passes c =
      ((e : Error) × (decrypt codec c.generator now token ≡ err e) × (e ≢ expired_stream_url))
      ⊎ ((d : Data) × (decrypt codec c.generator now token ≡ ok d)
          × (get_provider_from_data c (some d) ≡ none))

  module _ (expired_streamer : Provider → Option Text) where
    abbrev search : List Client → Access
    search = client_loop codec now expired_streamer token

    search-passes : (c : Client) (cs : List Client) → Passes c → search (c ∷ cs) ≡ search cs
    unfolding client_loop is_expired_stream
    search-passes c cs (inl (e, fails, other)) =
        rw (fails, client_loop) (rw (not_expired e other) refl)
    search-passes c cs (inr (d, opens, foreign)) = rw (opens, client_loop) (rw foreign refl)

    search-append :
        (before cs : List Client) → All Passes before → search (before ++ cs) ≡ search cs
    search-append [] cs h = refl
    search-append (c ∷ before) cs h =
        search-passes c (before ++ cs) h.0 ∙ search-append before cs h.1

    -- Where the search lets somebody in.
    pub record FirstOpens (clients : List Client) (c : Client) (p : Provider) (d : Data)
        : Type 0 where
      pub before : List Client
      pub behind : List Client
      pub splits : clients ≡ before ++ (c ∷ behind)
      pub passes : All Passes before
      pub opens : Opens c p d

    -- Decrypt gives no data beside the error, so no provider is found for it.
    expired_answer_lem :
        (c : Client) → expired_answer codec now expired_streamer token c ≡ unauthorized
    unfolding expired_answer get_provider_from_data
    expired_answer_lem c = refl

    search-expired :
        (c : Client) (cs : List Client)
        → decrypt codec c.generator now token ≡ err expired_stream_url
        → search (c ∷ cs) ≡ unauthorized
    unfolding client_loop is_expired_stream
    search-expired c cs old = rw (old, client_loop) (expired_answer_lem c)

    FirstOpens-cons :
        (b : Client) {cs : List Client} {c : Client} {p : Provider} {d : Data}
        → Passes b
        → FirstOpens cs c p d
        → FirstOpens (b ∷ cs) c p d
    FirstOpens-cons b pass f = record {
      before = b ∷ f.before;
      behind = f.behind;
      splits = ap (λ cs. b ∷ cs) f.splits;
      passes = (pass, f.passes);
      opens = f.opens;
    }

    -- The search meets a client, or passes it over.
    client_loop-FirstOpens :
        (cs : List Client) (c : Client) (p : Provider) (d : Data)
        → search cs ≡ granted c p d
        → FirstOpens cs c p d
    unfolding client_loop
    client_loop-FirstOpens [] c p d h = cc
    client_loop-FirstOpens (b ∷ cs) c p d h =
        elim (Result-cases (decrypt codec b.generator now token)) [
          | inl (e, fails) ↦ elim (Bool-cases (is_expired_stream e)) [
            | inl old ↦ cc (h, search-expired b cs (fails ∙ ap err (is_expired e old)))
            | inr other ↦
                let pass : Passes b = inl (e, fails, is_other e other) in
                FirstOpens-cons b pass
                  (client_loop-FirstOpens cs c p d (sym (search-passes b cs pass) ∙ h))
          ]
          | inr (d', opens) ↦ elim (Option-cases (get_provider_from_data b (some d'))) [
            | inl foreign ↦
                let pass : Passes b = inr (d', opens, foreign) in
                FirstOpens-cons b pass
                  (client_loop-FirstOpens cs c p d (sym (search-passes b cs pass) ∙ h))
            | inr (q, provides) ↦
                let found : search (b ∷ cs) ≡ granted b q d' =
                  rw (opens, client_loop) (rw provides refl) in
                let (client, provider, same) : (b ≡ c) × (q ≡ p) × (d' ≡ d) =
                  ground (arith, sym found ∙ h) in
                record {
                  before = [];
                  behind = cs;
                  splits = ap (λ a. a ∷ cs) client;
                  passes = tt;
                  opens = record { opens = cc; provides = cc };
                }
          ]
        ]

    client_loop-Opens :
        (c : Client) (cs : List Client) (p : Provider) (d : Data)
        → Opens c p d
        → search (c ∷ cs) ≡ granted c p d
    unfolding client_loop
    client_loop-Opens c cs p d o = rw (o.opens, client_loop) (rw o.provides refl)

module _ (codec : Codec) (now : ℕ) (expired_streamer : Provider → Option Text) (t : ℕ)
    (token : Text) where
  -- A request with a link is let in for a client, a provider and the data of the link exactly when the
  -- client is the first of the configuration whose key opens the link to that data and who has that
  -- provider, and no client before it has a link that has expired.
  pub proxy_auth-granted :
      (clients : List Client) (c : Client) (p : Provider) (d : Data)
      → (proxy_auth codec now expired_streamer clients (some (t ∷ token)) ≡ granted c p d)
        ↔ FirstOpens codec now (t ∷ token) expired_streamer clients c p d
  unfolding proxy_auth
  proxy_auth-granted clients c p d = (
    client_loop-FirstOpens codec now (t ∷ token) expired_streamer clients c p d,
    λ f.
        ap (client_loop codec now expired_streamer (t ∷ token)) f.splits
        ∙ search-append codec now (t ∷ token) expired_streamer f.before (c ∷ f.behind) f.passes
        ∙ client_loop-Opens codec now (t ∷ token) expired_streamer c f.behind p d f.opens,
  )

  -- A link to a stream that has expired is answered by the status 401, whatever command for expired
  -- links the provider has: the video of that command is never shown.
  pub proxy_auth-expired :
      (before behind : List Client) (c : Client)
      → All (Passes codec now (t ∷ token)) before
      → decrypt codec c.generator now (t ∷ token) ≡ err expired_stream_url
      → proxy_auth codec now expired_streamer (before ++ (c ∷ behind)) (some (t ∷ token))
        ≡ unauthorized
  unfolding proxy_auth
  proxy_auth-expired before behind c passes old =
      search-append codec now (t ∷ token) expired_streamer before (c ∷ behind) passes
      ∙ search-expired codec now (t ∷ token) expired_streamer c behind old
