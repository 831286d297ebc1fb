-- ===== src/Server/Proxy/Rounds.antt =====
-- One round over the streams does what its trials say.
use majmun.Base.{
  subst, inl, inr, ℕ, suc, Bool, true, false, ◌||◌, ◌&&◌, not, Option, none, some, List, [], ◌∷◌,
  ◌≡◌, refl, ap, sym, ◌∙◌, arith,
}
use majmun.Base.Lists.{length, any}
use majmun.Base.Tests.{if◌then◌else◌, Option-cases}
use majmun.Server.Proxy.Tries.{HasTried, HasTried-suc, result_of, video_of, try_stream_lem, is_some}
use majmun.Server.Proxy.Trials.{
  Trial, skipped, limited, broken, empty, accepted, playlist_of, trial, trial_with, or_playlist,
  trials, first_playlist, first_accepted, is_limited, is_empty_answer, trial_of_opening, request_of,
}
use majmun.Server.Stream.{
  Playlist, Provider, playlist, epg, Surroundings, Exchange, StreamResult, AllStreamsResult,
  try_stream, try_streams, first_of,
}
use majmun.Urlgen.Types.{Stream}

-- What a round over the streams returns, and what it leaves.
pub record IsRound (ts : List Trial) (limit upstream : Bool) (first : Option Playlist) (n : ℕ)
    (x : Exchange) (r : Exchange × AllStreamsResult) : Type 0 where
  pub has_tried : HasTried n (first_accepted ts) x r.0
  pub success : r.1.success ≡ is_some (first_accepted ts)
  pub limited_is : first_accepted ts ≡ none → r.1.has_limit_error ≡ (any is_limited ts || limit)
  pub upstream_is :
      first_accepted ts ≡ none → r.1.has_upstream_error ≡ (any is_empty_answer ts || upstream)
  pub default_is : first_accepted ts ≡ none → r.1.default_provider ≡ first

module _ (ts : List Trial) (limit upstream : Bool) (first : Option Playlist) (n : ℕ)
    (x y : Exchange) (r : Exchange × AllStreamsResult) where
  -- A trial that is not accepted in front of a round.
  IsRound-cons :
      (t : Trial)
      → video_of t ≡ none
      → HasTried 1 none x y
      → IsRound ts (is_limited t || limit) (is_empty_answer t || upstream) first n y r
      → IsRound (t ∷ ts) limit upstream first (suc n) x r
  IsRound-cons skipped quiet h round = record {
    has_tried = HasTried-suc h round.has_tried;
    success = round.success;
    limited_is = round.limited_is;
    upstream_is = round.upstream_is;
    default_is = round.default_is;
  }
  IsRound-cons limited quiet h round = record {
    has_tried = HasTried-suc h round.has_tried;
    success = round.success;
    limited_is = λ e. ground (arith, round.limited_is e);
    upstream_is = round.upstream_is;
    default_is = round.default_is;
  }
  IsRound-cons broken quiet h round = record {
    has_tried = HasTried-suc h round.has_tried;
    success = round.success;
    limited_is = round.limited_is;
    upstream_is = round.upstream_is;
    default_is = round.default_is;
  }
  IsRound-cons empty quiet h round = record {
    has_tried = HasTried-suc h round.has_tried;
    success = round.success;
    limited_is = round.limited_is;
    upstream_is = λ e. ground (arith, round.upstream_is e);
    default_is = round.default_is;
  }
  IsRound-cons (accepted s) quiet h round = absurd (cc)

module _ (e : Surroundings) (attempt i : ℕ) (stream : Stream) (streams : List Stream)
    (limit upstream : Bool) (first : Option Playlist) (x : Exchange) where
  pub skip_lem :
      playlist_of (e.get_provider stream.provider_info) ≡ none
      → try_streams e attempt i (stream ∷ streams) limit upstream first x
        ≡ try_streams e attempt (suc i) streams limit upstream first x
  unfolding try_streams
  skip_lem missing = elim (Option-cases (e.get_provider stream.provider_info)) [
    | inl none_found ↦ rw (none_found, try_streams) refl
    | inr (provider, found) ↦ go provider found
  ]
    where
      go :
          (q : Provider)
          → e.get_provider stream.provider_info ≡ some q
          → try_streams e attempt i (stream ∷ streams) limit upstream first x
            ≡ try_streams e attempt (suc i) streams limit upstream first x
      go epg found = rw (found, try_streams) refl
      go (playlist p) found = cc (missing, ap playlist_of found)

  -- The rest of the loop behind a try.
  abbrev pub after_try : Playlist → Exchange × AllStreamsResult
  after_try p =
      let (y, result) = try_stream e attempt i stream x in
      if result.success
      then (
        y,
        record {
          success = true;
          has_limit_error = false;
          has_upstream_error = false;
          default_provider = none;
        },
      )
      else try_streams e attempt (suc i) streams (result.is_limit_error || limit)
          (not result.is_limit_error && result.is_upstream_error || upstream) (first_of e first p) y

  pub step_lem :
      (p : Playlist)
      → playlist_of (e.get_provider stream.provider_info) ≡ some p
      → try_streams e attempt i (stream ∷ streams) limit upstream first x ≡ after_try p
  unfolding try_streams
  step_lem p found = elim (Option-cases (e.get_provider stream.provider_info)) [
    | inl none_found ↦ cc (found, ap playlist_of none_found)
    | inr (provider, there) ↦ go provider there
  ]
    where
      go :
          (q : Provider)
          → e.get_provider stream.provider_info ≡ some q
          → try_streams e attempt i (stream ∷ streams) limit upstream first x ≡ after_try p
      go epg there = cc (found, ap playlist_of there)
      go (playlist q) there =
          let same : q ≡ p = cc (found, ap playlist_of there) in
          rw (there, try_streams) (rw same refl)

abbrev pub won : AllStreamsResult
won = record {
  success = true;
  has_limit_error = false;
  has_upstream_error = false;
  default_provider = none;
}

-- A try, and the rest of the round where it was not accepted.
module _ (ts : List Trial) (limit upstream : Bool) (f : Option Playlist) (n : ℕ) (x y : Exchange)
    (rounds : Bool → Bool → Exchange × AllStreamsResult)
    (rest : (l u : Bool) → IsRound ts l u f n y (rounds l u)) where
  abbrev behind_result : StreamResult → Exchange × AllStreamsResult
  behind_result result =
      if result.success
      then (y, won)
      else rounds (result.is_limit_error || limit)
          (not result.is_limit_error && result.is_upstream_error || upstream)

  step-IsRound :
      (t : Trial)
      → HasTried 1 (video_of t) x y
      → IsRound (t ∷ ts) limit upstream f (suc n) x (behind_result (result_of t))
  step-IsRound skipped h =
      IsRound-cons ts limit upstream f n x y (rounds limit upstream) skipped refl h
        (rest limit upstream)
  step-IsRound limited h =
      IsRound-cons ts limit upstream f n x y (rounds true upstream) limited refl h
        (rest true upstream)
  step-IsRound broken h =
      IsRound-cons ts limit upstream f n x y (rounds limit upstream) broken refl h
        (rest limit upstream)
  step-IsRound empty h =
      IsRound-cons ts limit upstream f n x y (rounds limit true) empty refl h (rest limit true)
  step-IsRound (accepted s) h = record {
    has_tried = record {
      permits = h.permits;
      sleeps = h.sleeps;
      tried = omega (arith, h.tried);
      after = h.after;
    };
    success = refl;
    limited_is = λ e. absurd (cc e);
    upstream_is = λ e. absurd (cc e);
    default_is = λ e. absurd (cc e);
  }

first_of_lem :
    (e : Surroundings) (first fp : Option Playlist) (p : Playlist)
    → or_playlist (first_of e first p) fp ≡ or_playlist first (some p)
unfolding first_of
first_of_lem e none fp p = refl
first_of_lem e (some q) fp p = refl

nothing_tried : (x : Exchange) → HasTried 1 none x x
nothing_tried x = record {
  permits = refl;
  sleeps = refl;
  tried = omega arith;
  after = record { body = refl; status = refl };
}

module _ (e : Surroundings) (attempt : ℕ) where
  -- A round does what its trials say: it ends with the first stream that is accepted, and otherwise
  -- returns whether a stream was limited or empty and the first playlist.
  pub try_streams-IsRound :
      (streams : List Stream) (i : ℕ) (limit upstream : Bool) (first : Option Playlist)
      (x : Exchange)
      → IsRound
          (trials e attempt i streams)
          limit
          upstream
          (or_playlist first (first_playlist e streams))
          (length streams)
          x
          (try_streams e attempt i streams limit upstream first x)
  unfolding try_streams
  try_streams-IsRound [] i limit upstream first x = record {
    has_tried = record {
      permits = refl;
      sleeps = refl;
      tried = omega arith;
      after = record { body = refl; status = refl };
    };
    success = refl;
    limited_is = λ h. refl;
    upstream_is = λ h. refl;
    default_is = λ h. ground arith;
  }
  try_streams-IsRound (stream ∷ streams) i limit upstream first x =
      elim (Option-cases (playlist_of (e.get_provider stream.provider_info))) [
        | inl missing ↦
            subst
              (λ q.
                IsRound (trial_with q t ∷ ts) limit upstream (or_playlist first (or_playlist q fp))
                  (suc (length streams)) x
                  (try_streams e attempt i (stream ∷ streams) limit upstream first x))
              (sym missing)
              (subst
                (λ r.
                  IsRound (skipped ∷ ts) limit upstream (or_playlist first fp)
                    (suc (length streams)) x r)
                (sym (skip_lem e attempt i stream streams limit upstream first x missing))
                (IsRound-cons ts limit upstream (or_playlist first fp) (length streams) x x _
                  skipped refl (nothing_tried x)
                  (try_streams-IsRound streams (suc i) limit upstream first x)))
        | inr (p, found) ↦
            let (result, tried) = try_stream_lem e attempt i stream x p found in
            let y = (try_stream e attempt i stream x).0 in
            let rounds =
              λ (l u : Bool). try_streams e attempt (suc i) streams l u (first_of e first p) y in
            let rest = λ (l u : Bool).
              subst (λ f. IsRound ts l u f (length streams) y (rounds l u))
                (first_of_lem e first fp p)
                (try_streams-IsRound streams (suc i) l u (first_of e first p) y) in
            let step =
              step-IsRound ts limit upstream (or_playlist first (some p)) (length streams) x y
                rounds rest (trial e attempt i stream) tried in
            let run =
              step_lem e attempt i stream streams limit upstream first x p found
              ∙ ap
                  (behind_result ts limit upstream (or_playlist first (some p)) (length streams) x y
                    rounds rest)
                  result in
            subst
              (λ q.
                IsRound (trial e attempt i stream ∷ ts) limit upstream
                  (or_playlist first (or_playlist q fp)) (suc (length streams)) x
                  (try_streams e attempt i (stream ∷ streams) limit upstream first x))
              (sym found)
              (subst
                (λ r.
                  IsRound (trial e attempt i stream ∷ ts) limit upstream
                    (or_playlist first (some p)) (suc (length streams)) x r)
                (sym run) step)
      ]
    where
      fp : Option Playlist
      fp = first_playlist e streams

      ts : List Trial
      ts = trials e attempt (suc i) streams

      t : Trial
      t = trial_of_opening (e.get_reader attempt i (request_of e stream))
