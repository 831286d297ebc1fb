-- ===== src/Server/Proxy/Tries.antt =====
-- One round over the streams does what its trials say.
use majmun.Base.{
  subst, ℕ, suc, ◌+◌, ◌≤◌, Bool, true, false, Option, none, some, [], ◌∷◌, ◌++◌, ◌≡◌, refl, ap, sym,
  ◌∙◌, arith,
}
use mathlib.Core.List.{append-nil}
use majmun.Base.Lists.{length, length-append}
use majmun.Base.Maps.{Map, lookup, insert, lookup-insert}
use majmun.Base.Text.{Text, codes, text_eq_refl}
use majmun.Server.Proxy.Trials.{
  trial_with, Trial, skipped, limited, broken, empty, accepted, trial_of_opening, request_of,
  playlist_of, trial, first_accepted, Shows, IsSilent, After,
}
use majmun.Server.Stream.{
  Playlist, Opening, no_permit, failed, reader, Surroundings, Exchange, StreamResult,
  answer_opening, stream_to_response, stream_video, try_stream, stream_content_type,
}
use majmun.Server.Writer.{Writer, set_header, copy, write, write_header}
use majmun.Urlgen.Types.{Stream}

abbrev content_type_key : Text
content_type_key = codes "Content-Type"

lookup-insert_self :
    (v : Text) (h : Map Text) → lookup content_type_key (insert content_type_key v h) ≡ some v
lookup-insert_self v h =
    lookup-insert content_type_key content_type_key v h ∙ rw (text_eq_refl content_type_key) refl

pub stream_video-Shows : (video : Text) (w : Writer) → Shows video w (stream_video video w)
unfolding stream_video set_header copy write write_header
stream_video-Shows [] w = record {
  body = sym (append-nil w.body);
  status = refl;
  content_type = lookup-insert_self stream_content_type w.header;
}
stream_video-Shows (c ∷ s) w = record {
  body = ground arith;
  status = ground arith;
  content_type = ground (arith, lookup-insert_self stream_content_type w.header);
}

-- The three flags of a trial.
abbrev pub result_of : Trial → StreamResult
result_of skipped = record { success = false; is_limit_error = false; is_upstream_error = false }
result_of limited = record { success = false; is_limit_error = true; is_upstream_error = false }
result_of broken = record { success = false; is_limit_error = false; is_upstream_error = false }
result_of empty = record { success = false; is_limit_error = false; is_upstream_error = true }
result_of (accepted s) = record {
  success = true;
  is_limit_error = false;
  is_upstream_error = false;
}

-- Between two states of an exchange some streams have been tried.
pub record HasTried (most : ℕ) (video : Option Text) (x y : Exchange) : Type 0 where
  pub permits : y.permits ≡ x.permits
  pub sleeps : y.sleeps ≡ x.sleeps
  pub tried : length y.tried ≤ length x.tried + most
  pub after : After video x.writer y.writer

abbrev pub video_of : Trial → Option Text
video_of t = first_accepted (t ∷ [])

module _ (e : Surroundings) (x : Exchange) where
  pub answer_lem :
      (o : Opening)
      → ((answer_opening e o x).1 ≡ result_of (trial_of_opening o))
        × ((answer_opening e o x).0.permits ≡ x.permits)
        × ((answer_opening e o x).0.sleeps ≡ x.sleeps)
        × ((answer_opening e o x).0.tried ≡ x.tried)
        × After (video_of (trial_of_opening o)) x.writer (answer_opening e o x).0.writer
  unfolding answer_opening stream_to_response stream_video set_header
  answer_lem no_permit = (refl, refl, refl, refl, record { body = refl; status = refl })
  answer_lem failed = (refl, refl, refl, refl, record { body = refl; status = refl })
  answer_lem (reader [] true) = (refl, refl, refl, refl, record { body = refl; status = refl })
  answer_lem (reader [] false) = (refl, refl, refl, refl, stream_video-Shows [] x.writer)
  answer_lem (reader (c ∷ s) no_error) =
      (refl, refl, refl, refl, stream_video-Shows (c ∷ s) x.writer)

pub After-trans : (o : Option Text) (u v w : Writer) → IsSilent u v → After o v w → After o u w
After-trans none u v w h k = record { body = k.body ∙ h.body; status = k.status ∙ h.status }
After-trans (some s) u v w h k = record {
  body = k.body ∙ ap (λ b. b ++ s) h.body;
  status = ground (arith, h.status, k.status);
  content_type = k.content_type;
}

pub HasTried-trans :
    (n m : ℕ) (o : Option Text) (x y z : Exchange)
    → HasTried n none x y
    → HasTried m o y z
    → HasTried (n + m) o x z
HasTried-trans n m o x y z h k = record {
  permits = k.permits ∙ h.permits;
  sleeps = k.sleeps ∙ h.sleeps;
  tried = omega (arith, h.tried, k.tried);
  after = After-trans o x.writer y.writer z.writer h.after k.after;
}

pub HasTried-suc :
    {n : ℕ} {o : Option Text} {x y z : Exchange}
    → HasTried 1 none x y
    → HasTried n o y z
    → HasTried (suc n) o x z
HasTried-suc {n} {o} {x} {y} {z} h k =
    let both = HasTried-trans 1 n o x y z h k in
    record {
      permits = both.permits;
      sleeps = both.sleeps;
      tried = omega (arith, both.tried);
      after = both.after;
    }

module _ (e : Surroundings) (attempt i : ℕ) (stream : Stream) (x : Exchange) where
  -- A try of a stream that is that of a playlist.
  pub try_stream_lem :
      (p : Playlist)
      → playlist_of (e.get_provider stream.provider_info) ≡ some p
      → ((try_stream e attempt i stream x).1 ≡ result_of (trial e attempt i stream))
        × HasTried 1 (video_of (trial e attempt i stream)) x (try_stream e attempt i stream x).0
  unfolding try_stream
  try_stream_lem p found =
      let o = e.get_reader attempt i (request_of e stream) in
      let x' = record x { tried = x.tried ++ (attempt, i) ∷ [] } in
      let (result, permits, sleeps, tried, after) = answer_lem e x' o in
      let same : trial e attempt i stream ≡ trial_of_opening o =
        ap (λ q. trial_with q (trial_of_opening o)) found in
      subst
        (λ t.
          ((try_stream e attempt i stream x).1 ≡ result_of t)
          × HasTried 1 (video_of t) x (try_stream e attempt i stream x).0)
        (sym same)
        (
          result,
          record {
            permits = permits;
            sleeps = sleeps;
            tried = omega (arith, ap length tried, length-append x.tried ((attempt, i) ∷ []));
            after = after;
          },
        )

abbrev pub is_some : Option Text → Bool
is_some none = false
is_some (some s) = true
