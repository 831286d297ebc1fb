-- ===== src/Server/Proxy/Trials.antt =====
-- An account of the tries that does not run them: what comes of each stream, the first that is
-- accepted, and the playlist that speaks for all.
use majmun.Base.{ℕ, suc, Bool, true, false, Option, none, some, List, [], ◌∷◌, ◌++◌, ◌≡◌}
use majmun.Base.Lists.{get_or}
use majmun.Base.Maps.{lookup}
use majmun.Base.Text.{Text, codes}
use majmun.Server.Stream.{
  Playlist, Provider, playlist, epg, Request, Opening, no_permit, failed, reader, Surroundings,
  build_stream_url, build_stream_key, stream_content_type,
}
use majmun.Server.Writer.{Writer}
use majmun.Urlgen.Types.{Stream}

-- What comes of a stream. It is accepted with what it gave once there is a byte of it, and also where
-- it breaks off with an error before the first byte; it is empty where it ends without an error.
pub data Trial : Type 0 where
  skipped limited broken empty : Trial
  accepted : Text → Trial

abbrev pub trial_of_opening : Opening → Trial
trial_of_opening no_permit = limited
trial_of_opening failed = broken
trial_of_opening (reader [] true) = empty
trial_of_opening (reader [] false) = accepted []
trial_of_opening (reader (c ∷ s) no_error) = accepted (c ∷ s)

abbrev pub request_of : Surroundings → Stream → Request
request_of e stream = record {
  stream_key = build_stream_key e.sha256 e.unix_now stream.url e.raw_query;
  stream_url = build_stream_url stream.url e.raw_query;
}

abbrev pub playlist_of : Option Provider → Option Playlist
playlist_of none = none
playlist_of (some epg) = none
playlist_of (some (playlist p)) = some p

-- A stream whose provider is no playlist is skipped.
abbrev pub trial_with : Option Playlist → Trial → Trial
trial_with none t = skipped
trial_with (some p) t = t

abbrev pub or_playlist : Option Playlist → Option Playlist → Option Playlist
or_playlist none q = q
or_playlist (some p) q = some p

module _ (e : Surroundings) where
  abbrev pub trial : ℕ → ℕ → Stream → Trial
  trial attempt i stream =
      trial_with (playlist_of (e.get_provider stream.provider_info))
        (trial_of_opening (e.get_reader attempt i (request_of e stream)))

  abbrev pub trials : ℕ → ℕ → List Stream → List Trial
  trials attempt i [] = []
  trials attempt i (stream ∷ streams) = trial attempt i stream ∷ trials attempt (suc i) streams

  abbrev pub first_playlist : List Stream → Option Playlist
  first_playlist [] = none
  first_playlist (stream ∷ streams) =
      or_playlist (playlist_of (e.get_provider stream.provider_info)) (first_playlist streams)

abbrev pub first_accepted : List Trial → Option Text
first_accepted [] = none
first_accepted (accepted s ∷ ts) = some s
first_accepted (skipped ∷ ts) = first_accepted ts
first_accepted (limited ∷ ts) = first_accepted ts
first_accepted (broken ∷ ts) = first_accepted ts
first_accepted (empty ∷ ts) = first_accepted ts

abbrev pub is_limited : Trial → Bool
is_limited limited = true
is_limited _ = false

abbrev pub is_empty_answer : Trial → Bool
is_empty_answer empty = true
is_empty_answer _ = false

-- The answer is a video: these bytes behind what was written, and their type.
pub record Shows (video : Text) (w v : Writer) : Type 0 where
  pub body : v.body ≡ w.body ++ video
  pub status :
      v.status
      ≡ elim video as (λ _. Option ℕ) [ [] ↦ w.status | c ∷ s ↦ some (get_or w.status 200) ]
  pub content_type : lookup (codes "Content-Type") v.header ≡ some stream_content_type

-- Nothing has been written.
pub record IsSilent (w v : Writer) : Type 0 where
  pub body : v.body ≡ w.body
  pub status : v.status ≡ w.status

-- What a stream leaves of the answer.
abbrev pub After : Option Text → Writer → Writer → Type 0
After (some s) w v = Shows s w v
After none w v = IsSilent w v
