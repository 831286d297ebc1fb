-- ===== src/Server/Stream.antt =====
-- internal/server/stream.go and semaphore.go: the proxy of streams. A call of the stream pool is a
-- parameter, by the attempt and the place of the stream; so are the commands that write the videos
-- about an error. The sleep before a retry is a count.
use majmun.Base.{
  ℕ, suc, ◌+◌, ◌-◌, Bool, true, false, not, ◌&&◌, ◌||◌, Option, none, some, List, [], ◌∷◌, ◌++◌,
}
use majmun.Base.Tests.{ltb, if◌then◌else◌}
use majmun.Base.Text.{Text, codes}
use majmun.Common.{generate_hash_id}
use majmun.Server.Writer.{Writer, set_header, copy}
use majmun.Urlgen.Types.{ProviderInfo, Stream}

-- What the handler uses of a *app.Playlist: what its commands write.
pub record Playlist : Type 0 where
  pub name : Text
  pub limit_streamer : Text
  pub upstream_error_streamer : Text

pub data Provider : Type 0 where
  playlist : Playlist → Provider
  epg : Provider

pub record Request : Type 0 where
  pub stream_key : Text
  pub stream_url : Text

-- What GetReader returns, and what io.Copy reads from the reader up to its end or an error.
pub data Opening : Type 0 where
  no_permit failed : Opening
  reader : Text → Bool → Opening

-- The free permits of the two semaphores, where they are configured.
pub record Permits : Type 0 where
  pub manager : Option ℕ
  pub client : Option ℕ

pub record StreamResult : Type 0 where
  pub success : Bool
  pub is_limit_error : Bool
  pub is_upstream_error : Bool

pub record AllStreamsResult : Type 0 where
  pub success : Bool
  pub has_limit_error : Bool
  pub has_upstream_error : Bool
  pub default_provider : Option Playlist

-- The exchange with the client, the calls of GetReader so far and the sleeps.
pub record Exchange : Type 0 where
  pub writer : Writer
  pub permits : Permits
  pub tried : List (ℕ × ℕ)
  pub sleeps : ℕ

pub record Surroundings : Type 0 where
  pub sha256 : Text → List ℕ
  pub unix_now : Text
  pub raw_query : Text
  pub get_provider : ProviderInfo → Option Provider
  pub get_reader : ℕ → ℕ → Request → Opening
  pub manager_granted : Bool
  pub client_granted : Bool
  pub status_text : ℕ → Text

abbrev pub stream_content_type : Text
stream_content_type = codes "video/mp2t"

abbrev pub max_retry_attempts : ℕ
max_retry_attempts = 2

unfoldable pub build_stream_url : Text → Text → Text
build_stream_url base [] = base
build_stream_url base (c ∷ query) = base ++ b'?' ∷ c ∷ query

-- `now` is time.Now().Unix() in decimal.
unfoldable pub build_stream_key : (Text → List ℕ) → Text → Text → Text → Text
unfolding build_stream_url
build_stream_key sha256 now base [] = generate_hash_id sha256 (base ∷ [])
build_stream_key sha256 now base (c ∷ query) =
    generate_hash_id sha256 ((base ++ b'?' ∷ c ∷ query) ∷ now ∷ [])

-- One semaphore of acquireSemaphores: a permit is taken if one comes free in time.
take_permit : Bool → Option ℕ → Option ℕ × Bool
take_permit granted none = (none, true)
take_permit granted (some free) =
    if granted && ltb 0 free then (some (free - 1), true) else (some free, false)

unfoldable pub acquire_semaphores : Bool → Bool → Permits → Permits × Bool
unfolding take_permit
acquire_semaphores manager_granted client_granted p =
    let (m, got) = take_permit manager_granted p.manager in
    let (c, got') = take_permit client_granted p.client in
    (record { manager = m; client = c }, got && got')

give_back : Option ℕ → Option ℕ
give_back none = none
give_back (some free) = some (free + 1)

unfoldable pub release_semaphores : Permits → Permits
unfolding give_back
release_semaphores p = record { manager = give_back p.manager; client = give_back p.client }

-- A video that a command of the playlist writes.
unfoldable pub stream_video : Text → Writer → Writer
unfolding set_header copy
stream_video video w = copy video (set_header (codes "Content-Type") stream_content_type w)

unfoldable pub stream_to_response : Text → Bool → Writer → Writer × StreamResult
unfolding set_header copy
stream_to_response read no_error w =
    let v = copy read (set_header (codes "Content-Type") stream_content_type w) in
    elim read [
      | [] ↦
          if no_error
          then (v, record { success = false; is_limit_error = false; is_upstream_error = true })
          else (v, record { success = true; is_limit_error = false; is_upstream_error = false })
      | c ∷ s ↦ (v, record { success = true; is_limit_error = false; is_upstream_error = false })
    ]

module _ (e : Surroundings) where
  -- What GetReader returned, written out.
  unfoldable pub answer_opening : Opening → Exchange → Exchange × StreamResult
  unfolding stream_to_response
  answer_opening no_permit x =
      (x, record { success = false; is_limit_error = true; is_upstream_error = false })
  answer_opening failed x =
      (x, record { success = false; is_limit_error = false; is_upstream_error = false })
  answer_opening (reader read no_error) x =
      let (w, result) = stream_to_response read no_error x.writer in
      (record x { writer = w }, result)

  unfoldable pub try_stream : ℕ → ℕ → Stream → Exchange → Exchange × StreamResult
  unfolding answer_opening build_stream_url build_stream_key
  try_stream attempt i stream x =
      let req : Request = record {
        stream_key = build_stream_key e.sha256 e.unix_now stream.url e.raw_query;
        stream_url = build_stream_url stream.url e.raw_query;
      } in
      answer_opening (e.get_reader attempt i req)
        (record x { tried = x.tried ++ (attempt, i) ∷ [] })

  unfoldable pub first_of : Option Playlist → Playlist → Option Playlist
  first_of none p = some p
  first_of (some q) p = some q

  -- The loop over the streams, with its variables.
  unfoldable pub try_streams :
      ℕ → ℕ → List Stream → Bool → Bool → Option Playlist → Exchange → Exchange × AllStreamsResult
  unfolding first_of
  try_streams attempt i [] limit upstream first x = (
    x,
    record {
      success = false;
      has_limit_error = limit;
      has_upstream_error = upstream;
      default_provider = first;
    },
  )
  try_streams attempt i (stream ∷ streams) limit upstream first x =
      elim (e.get_provider stream.provider_info) [
        | none ↦ try_streams attempt (suc i) streams limit upstream first x
        | some provider ↦ elim provider [
          | epg ↦ try_streams attempt (suc i) streams limit upstream first x
          | playlist p ↦
              let (y, result) = try_stream attempt i stream x in
              let rest =
                try_streams attempt (suc i) streams (result.is_limit_error || limit)
                  (not result.is_limit_error && result.is_upstream_error || upstream)
                  (first_of first p) y in
              if result.success
              then (
                y,
                record {
                  success = true;
                  has_limit_error = false;
                  has_upstream_error = false;
                  default_provider = none;
                },
              )
              else rest
        ]
      ]

  unfoldable pub try_all_streams : ℕ → List Stream → Exchange → Exchange × AllStreamsResult
  unfolding try_streams
  try_all_streams attempt streams x = try_streams attempt 0 streams false false none x
