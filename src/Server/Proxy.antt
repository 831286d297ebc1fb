-- ===== src/Server/Proxy.antt =====
-- internal/server/stream.go: handleStreamProxy, over the tries of Stream.
pub mod Trials
pub mod Tries
pub mod Rounds
pub mod Places
pub mod Answered
pub mod Handled
use majmun.Base.{ℕ, zero, suc, ◌+◌, Bool, true, false, ◌&&◌, Option, none, some, List, [], ◌∷◌}
use majmun.Base.Tests.{ltb, if◌then◌else◌}
use majmun.Server.Stream.{
  Playlist, Provider, playlist, epg, AllStreamsResult, Exchange, Surroundings, max_retry_attempts,
  acquire_semaphores, release_semaphores, stream_video, try_all_streams,
}
use majmun.Base.Text.{Text}
use majmun.Server.Writer.{Writer, http_error}
use majmun.Urlgen.Types.{Stream}

abbrev no_result : AllStreamsResult
no_result = record {
  success = false;
  has_limit_error = false;
  has_upstream_error = false;
  default_provider = none;
}

module _ (e : Surroundings) where
  -- The answer of a handler that gives up.
  unfoldable pub give_up : ℕ → Exchange → Exchange
  give_up code x = record x { writer = http_error (e.status_text code) code x.writer }

  unfoldable pub show_video : (Playlist → Text) → Playlist → Exchange → Exchange
  unfolding stream_video
  show_video video p x = record x { writer = stream_video (video p) x.writer }

  -- The answer to a client for whom there is no permit.
  unfoldable pub refuse : List Stream → Exchange → Exchange
  unfolding give_up show_video
  refuse [] x = give_up 503 x
  refuse (stream ∷ streams) x = elim (e.get_provider stream.provider_info) [
    | none ↦ give_up 503 x
    | some provider ↦ elim provider [
      | epg ↦ give_up 503 x
      | playlist p ↦ show_video (λ q. q.limit_streamer) p x
    ]
  ]

  -- The answer when every attempt has failed, by the result of the last one.
  unfoldable pub finish : AllStreamsResult → Exchange → Exchange
  unfolding give_up show_video
  finish last x = elim last.default_provider [
    | none ↦ give_up 502 x
    | some p ↦
        if last.has_limit_error
        then show_video (λ q. q.limit_streamer) p x
        else if last.has_upstream_error
        then show_video (λ q. q.upstream_error_streamer) p x
        else give_up 502 x
  ]

  unfoldable pub pause : ℕ → AllStreamsResult → Exchange → Exchange
  pause attempt last x =
      if ltb 0 attempt && last.has_limit_error then record x { sleeps = x.sleeps + 1 } else x

  -- The loop over the attempts, of which `left` are left.
  unfoldable pub attempts : ℕ → ℕ → AllStreamsResult → List Stream → Exchange → Exchange
  unfolding pause finish try_all_streams
  attempts zero attempt last streams x = finish last x
  attempts (suc left) attempt last streams x =
      let (y, result) = try_all_streams e attempt streams (pause attempt last x) in
      let rest = attempts left (suc attempt) result streams y in if result.success then y else rest

  unfoldable pub handle_stream_proxy : List Stream → Exchange → Exchange
  unfolding refuse attempts
  handle_stream_proxy streams x =
      let (p, acquired) = acquire_semaphores e.manager_granted e.client_granted x.permits in
      let y = record x { permits = p } in
      let z = attempts max_retry_attempts 0 no_result streams y in
      if acquired then record z { permits = release_semaphores z.permits } else refuse streams y
