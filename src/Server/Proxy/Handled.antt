-- ===== src/Server/Proxy/Handled.antt =====
-- The handler as a whole: its answer, its bounds, and the permits.
use majmun.Base.{
  inl, inr, subst, ℕ, suc, ◌+◌, ◌*◌, ◌≤◌, Bool, true, false, Option, none, some, List, [], ◌∷◌, ◌≡◌,
  refl, ap, sym, ◌∙◌, arith,
}
use majmun.Base.Lists.{length, any}
use majmun.Base.Tests.{if◌then◌else◌, Option-cases}
use majmun.Server.Proxy.Answered.{
  http_error-Refuses, Refuses, Answers, both, round0, round1, attempts_lem, attempts-Answers,
  round0-IsRound, round1-IsRound,
}
use majmun.Server.Proxy.Places.{tries_of, try_all_streams_once}
use majmun.Server.Proxy.Tries.{stream_video-Shows}
use majmun.Server.Proxy.Trials.{
  playlist_of, Shows, trials, first_playlist, first_accepted, is_limited, is_empty_answer,
}
use majmun.Server.Proxy.{
  no_result, finish, pause, attempts, refuse, handle_stream_proxy, show_video, give_up,
}
use majmun.Server.Stream.{
  Playlist, Provider, playlist, epg, Surroundings, Exchange, AllStreamsResult, Permits,
  acquire_semaphores, release_semaphores,
}
use majmun.Urlgen.Types.{Stream}
use majmun.Server.Writer.{Writer}
use majmun.Base.Text.{Text}

-- What the steps around the tries leave alone.
pub record SameCounts (x y : Exchange) : Type 0 where
  pub permits : y.permits ≡ x.permits
  pub tried : y.tried ≡ x.tried
  pub sleeps : y.sleeps ≡ x.sleeps

module _ (e : Surroundings) (streams : List Stream) (x : Exchange) where
  finish-SameCounts : (last : AllStreamsResult) (y : Exchange) → SameCounts y (finish e last y)
  unfolding finish give_up show_video
  finish-SameCounts last y = record {
    permits = ground arith;
    tried = ground arith;
    sleeps = ground arith;
  }

  -- At most two tries of each stream, by its place, one sleep, and the permits as they were.
  abbrev pub Within : Exchange → Type 0
  Within y =
      (y.permits ≡ x.permits)
      × (length y.tried ≤ length x.tried + 2 * length streams)
      × ((j : ℕ) → tries_of j y.tried ≤ tries_of j x.tried + 2)
      × (y.sleeps ≤ x.sleeps + 1)

  if_Within : (b : Bool) (u v : Exchange) → Within u → Within v → Within (if b then u else v)
  if_Within true u v h k = h
  if_Within false u v h k = k

  attempts-Within : Within (attempts e 2 0 no_result streams x)
  unfolding pause
  attempts-Within =
      let r0 = round0 e streams x in
      let r1 = round1 e streams x in
      let once = λ (j : ℕ). try_all_streams_once e 0 j streams x in
      let again = λ (j : ℕ). try_all_streams_once e 1 j streams (pause e 1 r0.1 r0.0) in
      let first = (round0-IsRound e streams x).has_tried in
      let second = (round1-IsRound e streams x).has_tried in
      let rest = finish-SameCounts r1.1 r1.0 in
      let paused : ((pause e 1 r0.1 r0.0).permits ≡ r0.0.permits)
          × ((pause e 1 r0.1 r0.0).tried ≡ r0.0.tried)
          × ((pause e 1 r0.1 r0.0).sleeps ≤ r0.0.sleeps + 1) =
        ground arith in
      subst Within (sym (attempts_lem e streams x)) (
        if_Within r0.1.success r0.0 _
          (
            first.permits,
            omega (arith, first.tried),
            λ j. omega (arith, once j),
            omega (arith, first.sleeps),
          )
          (if_Within r1.1.success r1.0 (finish e r1.1 r1.0)
            (
              second.permits ∙ paused.0 ∙ first.permits,
              omega (arith, first.tried, second.tried, ap length paused.1),
              λ j. omega (arith, once j, again j, ap (tries_of j) paused.1),
              omega (arith, first.sleeps, second.sleeps, paused.2),
            )
            (
              rest.permits ∙ second.permits ∙ paused.0 ∙ first.permits,
              omega (arith, first.tried, second.tried, ap length paused.1, ap length rest.tried),
              λ j.
                  omega
                    (arith, once j, again j, ap (tries_of j) paused.1, ap (tries_of j) rest.tried),
              omega (arith, first.sleeps, second.sleeps, paused.2, rest.sleeps),
            )))

-- The answer to a client without a permit, by the playlist of the first stream.
abbrev pub Refusal : Text → Option Playlist → Writer → Writer → Type 0
Refusal text none w v = Refuses 503 text w v
Refusal text (some p) w v = Shows p.limit_streamer w v

module _ (e : Surroundings) where
  abbrev pub leading_playlist : List Stream → Option Playlist
  leading_playlist [] = none
  leading_playlist (stream ∷ streams) = playlist_of (e.get_provider stream.provider_info)

  -- A refusal, with no stream tried and no sleep.
  abbrev pub Refused : List Stream → Exchange → Exchange → Type 0
  Refused streams x y =
      Refusal (e.status_text 503) (leading_playlist streams) x.writer y.writer
      × (y.tried ≡ x.tried)
      × (y.sleeps ≡ x.sleeps)

  refuse_lem : (streams : List Stream) (x : Exchange) → Refused streams x (refuse e streams x)
  unfolding refuse give_up show_video
  refuse_lem [] x = (http_error-Refuses 503 (e.status_text 503) x.writer, refl, refl)
  refuse_lem (stream ∷ streams) x = elim (Option-cases (e.get_provider stream.provider_info)) [
    | inl missing ↦
        rw (missing, refuse) (http_error-Refuses 503 (e.status_text 503) x.writer, refl, refl)
    | inr (q, found) ↦ rw (found, refuse) (go q)
  ]
    where
      go :
          (q : Provider)
          → let y : Exchange = elim q [
            | epg ↦ give_up e 503 x
            | playlist p ↦ show_video e (λ l. l.limit_streamer) p x
          ] in
            Refusal (e.status_text 503) (playlist_of (some q)) x.writer y.writer
            × (y.tried ≡ x.tried)
            × (y.sleeps ≡ x.sleeps)
      go epg = (http_error-Refuses 503 (e.status_text 503) x.writer, refl, refl)
      go (playlist p) = (stream_video-Shows p.limit_streamer x.writer, refl, refl)

module _ (e : Surroundings) (streams : List Stream) (x : Exchange) where
  abbrev acquired : Permits × Bool
  acquired = acquire_semaphores e.manager_granted e.client_granted x.permits

  abbrev behind : Exchange
  behind = attempts e 2 0 no_result streams (record x { permits = acquired.0 })

  handled :
      acquired.1 ≡ true
      → handle_stream_proxy e streams x
        ≡ record behind { permits = release_semaphores behind.permits }
  unfolding handle_stream_proxy
  handled got = rw (got, handle_stream_proxy) refl

  turned_away :
      acquired.1 ≡ false
      → handle_stream_proxy e streams x ≡ refuse e streams (record x { permits = acquired.0 })
  unfolding handle_stream_proxy
  turned_away lost = rw (lost, handle_stream_proxy) refl

  returned : acquired.1 ≡ true → release_semaphores acquired.0 ≡ x.permits
  unfolding acquire_semaphores release_semaphores
  returned got = ground arith

  -- A client for whom permits are found gets the bytes of the first stream that is accepted in two
  -- attempts. A stream is accepted once it gave a byte, and also where it broke off with an error
  -- before its first byte: then the client gets an empty answer. When no stream is accepted, the client
  -- gets the video of the first playlist about the limit, if a stream was limited in the second
  -- attempt, or else the one about a failure, if a stream ended there without a byte and without an
  -- error, or else the status 502, as where GetReader fails for every stream.
  pub handle_stream_proxy-Answers :
      acquired.1 ≡ true
      → Answers
          (e.status_text 502)
          (first_accepted (both e streams))
          (first_playlist e streams)
          (any is_limited (trials e 1 0 streams))
          (any is_empty_answer (trials e 1 0 streams))
          x.writer
          (handle_stream_proxy e streams x).writer
  handle_stream_proxy-Answers got =
      subst
        (λ y.
          Answers (e.status_text 502) (first_accepted (both e streams)) (first_playlist e streams)
            (any is_limited (trials e 1 0 streams)) (any is_empty_answer (trials e 1 0 streams))
            x.writer y.writer)
        (sym (handled got)) (attempts-Answers e streams (record x { permits = acquired.0 }))

  -- A client for whom permits are found has each place of the list of streams tried at most twice and
  -- sleeps at most once, and the permits are left as they were.
  pub handle_stream_proxy_bounds :
      acquired.1 ≡ true → Within e streams x (handle_stream_proxy e streams x)
  handle_stream_proxy_bounds got =
      let (permits, tried, twice, sleeps) =
        attempts-Within e streams (record x { permits = acquired.0 }) in
      subst (Within e streams x) (sym (handled got))
        (ap release_semaphores permits ∙ returned got, tried, twice, sleeps)

  refuse-Refused : (p : Permits) → Refused e streams x (refuse e streams (record x { permits = p }))
  refuse-Refused p = refuse_lem e streams (record x { permits = p })

  -- A client that gets a permit of the server and none of its own is refused: no stream is tried, and
  -- the answer is the video about the limit of the playlist of the first stream, or the status 503 if
  -- that has none. The permit of the server is never given back.
  pub handle_stream_proxy_leaks :
      {free taken : ℕ}
      → x.permits.manager ≡ some (suc free)
      → x.permits.client ≡ some taken
      → e.manager_granted ≡ true
      → e.client_granted ≡ false
      → ((handle_stream_proxy e streams x).permits
          ≡ record { manager = some free; client = some taken })
        × Refused e streams x (handle_stream_proxy e streams x)
  unfolding handle_stream_proxy acquire_semaphores refuse give_up show_video
  handle_stream_proxy_leaks m c granted refused =
      (ground arith, rw (turned_away (ground arith)) (refuse-Refused acquired.0))
