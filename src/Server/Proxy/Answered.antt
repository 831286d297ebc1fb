-- ===== src/Server/Proxy/Answered.antt =====
-- What the client of a stream gets, against the trials of both attempts.
use majmun.Base.{
  subst, inl, inr, ℕ, Bool, true, false, ◌||◌, Option, none, some, List, [], ◌∷◌, ◌++◌, ◌≡◌, refl,
  ap, sym, ◌∙◌, arith,
}
use majmun.Base.Lists.{length, any, get_or}
use majmun.Base.Tests.{if◌then◌else◌, Option-cases}
use majmun.Base.Text.{Text}
use majmun.Server.Proxy.Rounds.{IsRound, try_streams-IsRound}
use majmun.Server.Proxy.Trials.{
  Trial, skipped, limited, broken, empty, accepted, trials, first_playlist, first_accepted,
  is_limited, is_empty_answer, Shows, IsSilent, After,
}
use majmun.Server.Proxy.Tries.{is_some, stream_video-Shows, After-trans}
use majmun.Server.Proxy.{no_result, finish, pause, attempts, show_video, give_up}
use majmun.Server.Stream.{Playlist, Surroundings, Exchange, AllStreamsResult, try_all_streams}
use majmun.Server.Writer.{Writer, http_error, write, write_header}
use majmun.Urlgen.Types.{Stream}

-- An error answer.
pub record Refuses (code : ℕ) (text : Text) (w v : Writer) : Type 0 where
  pub status : v.status ≡ some (get_or w.status code)
  pub body : v.body ≡ w.body ++ (text ++ b'\n' ∷ [])

pub http_error-Refuses :
    (code : ℕ) (text : Text) (w : Writer) → Refuses code text w (http_error text code w)
unfolding http_error write write_header
http_error-Refuses code text w = record { status = ground arith; body = ground arith }

-- The answer by the first stream that is accepted; without one by the playlist that speaks for all, and
-- by whether a stream was limited, and whether one was empty.
abbrev pub Answers : Text → Option Text → Option Playlist → Bool → Bool → Writer → Writer → Type 0
Answers text (some s) p limit upstream w v = Shows s w v
Answers text none none limit upstream w v = Refuses 502 text w v
Answers text none (some p) true upstream w v = Shows p.limit_streamer w v
Answers text none (some p) false true w v = Shows p.upstream_error_streamer w v
Answers text none (some p) false false w v = Refuses 502 text w v

first_accepted-append :
    (ts us : List Trial) → first_accepted ts ≡ none → first_accepted (ts ++ us) ≡ first_accepted us
first_accepted-append [] us h = refl
first_accepted-append (skipped ∷ ts) us h = first_accepted-append ts us h
first_accepted-append (limited ∷ ts) us h = first_accepted-append ts us h
first_accepted-append (broken ∷ ts) us h = first_accepted-append ts us h
first_accepted-append (empty ∷ ts) us h = first_accepted-append ts us h
first_accepted-append (accepted s ∷ ts) us h = cc

first_accepted-append_some :
    (ts us : List Trial) (s : Text)
    → first_accepted ts ≡ some s
    → first_accepted (ts ++ us) ≡ some s
first_accepted-append_some [] us s h = cc
first_accepted-append_some (skipped ∷ ts) us s h = first_accepted-append_some ts us s h
first_accepted-append_some (limited ∷ ts) us s h = first_accepted-append_some ts us s h
first_accepted-append_some (broken ∷ ts) us s h = first_accepted-append_some ts us s h
first_accepted-append_some (empty ∷ ts) us s h = first_accepted-append_some ts us s h
first_accepted-append_some (accepted t ∷ ts) us s h = h

or_false : (b : Bool) → (b || false) ≡ b
or_false true = refl
or_false false = refl

Refuses-after :
    (text : Text) (u v w : Writer) → IsSilent u v → Refuses 502 text v w → Refuses 502 text u w
Refuses-after text u v w h k = record {
  status = k.status ∙ ap (λ o. some (get_or o 502)) h.status;
  body = k.body ∙ ap (λ b. b ++ (text ++ b'\n' ∷ [])) h.body;
}

module _ (e : Surroundings) (streams : List Stream) where
  abbrev pub both : List Trial
  both = trials e 0 0 streams ++ trials e 1 0 streams

  finish-Answers :
      (last : AllStreamsResult) (x : Exchange)
      → Answers
          (e.status_text 502)
          none
          last.default_provider
          last.has_limit_error
          last.has_upstream_error
          x.writer
          (finish e last x).writer
  unfolding finish give_up show_video
  finish-Answers last x =
      go last.success last.has_limit_error last.has_upstream_error last.default_provider
    where
      go :
          (success limit upstream : Bool) (p : Option Playlist)
          → Answers
              (e.status_text 502)
              none
              p
              limit
              upstream
              x.writer
              (finish e
                (record {
                  success = success;
                  has_limit_error = limit;
                  has_upstream_error = upstream;
                  default_provider = p;
                })
                x).writer
      go success limit upstream none = http_error-Refuses 502 (e.status_text 502) x.writer
      go success true upstream (some p) = stream_video-Shows p.limit_streamer x.writer
      go success false true (some p) = stream_video-Shows p.upstream_error_streamer x.writer
      go success false false (some p) = http_error-Refuses 502 (e.status_text 502) x.writer

  -- Silence in front of an answer.
  Answers-after :
      (text : Text) (o : Option Text) (p : Option Playlist) (limit upstream : Bool) (u v w : Writer)
      → IsSilent u v
      → Answers text o p limit upstream v w
      → Answers text o p limit upstream u w
  Answers-after text (some s) p limit upstream u v w h k = After-trans (some s) u v w h k
  Answers-after text none none limit upstream u v w h k = Refuses-after text u v w h k
  Answers-after text none (some p) true upstream u v w h k =
      After-trans (some p.limit_streamer) u v w h k
  Answers-after text none (some p) false true u v w h k =
      After-trans (some p.upstream_error_streamer) u v w h k
  Answers-after text none (some p) false false u v w h k = Refuses-after text u v w h k

  module _ (x : Exchange) where
    abbrev pub round0 : Exchange × AllStreamsResult
    round0 = try_all_streams e 0 streams x

    abbrev pub round1 : Exchange × AllStreamsResult
    round1 = try_all_streams e 1 streams (pause e 1 round0.1 round0.0)

    pub round0-IsRound :
        IsRound
          (trials e 0 0 streams)
          false
          false
          (first_playlist e streams)
          (length streams)
          x
          round0
    unfolding try_all_streams
    round0-IsRound = try_streams-IsRound e 0 streams 0 false false none x

    pub round1-IsRound :
        IsRound
          (trials e 1 0 streams)
          false
          false
          (first_playlist e streams)
          (length streams)
          (pause e 1 round0.1 round0.0)
          round1
    unfolding try_all_streams
    round1-IsRound = try_streams-IsRound e 1 streams 0 false false none _

    pub attempts_lem : attempts e 2 0 no_result streams x ≡ (
        if round0.1.success
        then round0.0
        else if round1.1.success
        then round1.0
        else finish e round1.1 round1.0)
    unfolding attempts pause
    attempts_lem = refl

    pause_writer : (r : AllStreamsResult) (y : Exchange) → (pause e 1 r y).writer ≡ y.writer
    unfolding pause
    pause_writer r y = ground arith

    conclude :
        (o : Option Text) (y : Exchange)
        → first_accepted both ≡ o
        → attempts e 2 0 no_result streams x ≡ y
        → Answers
            (e.status_text 502)
            o
            (first_playlist e streams)
            (any is_limited (trials e 1 0 streams))
            (any is_empty_answer (trials e 1 0 streams))
            x.writer
            y.writer
        → Answers
            (e.status_text 502)
            (first_accepted both)
            (first_playlist e streams)
            (any is_limited (trials e 1 0 streams))
            (any is_empty_answer (trials e 1 0 streams))
            x.writer
            (attempts e 2 0 no_result streams x).writer
    conclude o y accepted_is run h =
        subst
          (λ q.
            Answers (e.status_text 502) q (first_playlist e streams)
              (any is_limited (trials e 1 0 streams)) (any is_empty_answer (trials e 1 0 streams))
              x.writer (attempts e 2 0 no_result streams x).writer)
          (sym accepted_is)
          (subst
            (λ z.
              Answers (e.status_text 502) o (first_playlist e streams)
                (any is_limited (trials e 1 0 streams)) (any is_empty_answer (trials e 1 0 streams))
                x.writer z.writer)
            (sym run) h)

    -- The first attempt wrote nothing.
    silent :
        first_accepted (trials e 0 0 streams) ≡ none
        → IsSilent x.writer (pause e 1 round0.1 round0.0).writer
    silent lost =
        let quiet : IsSilent x.writer round0.0.writer =
          subst (λ o. After o x.writer round0.0.writer) lost round0-IsRound.has_tried.after in
        subst (λ w. IsSilent x.writer w) (sym (pause_writer round0.1 round0.0)) quiet

    lost_first :
        first_accepted (trials e 0 0 streams) ≡ none
        → attempts e 2 0 no_result streams x
          ≡ (if round1.1.success then round1.0 else finish e round1.1 round1.0)
    lost_first lost = attempts_lem ∙ rw (round0-IsRound.success ∙ ap is_some lost) refl

    won_first :
        (s : Text)
        → first_accepted (trials e 0 0 streams) ≡ some s
        → attempts e 2 0 no_result streams x ≡ round0.0
    won_first s won = attempts_lem ∙ rw (round0-IsRound.success ∙ ap is_some won) refl

    silence_twice :
        first_accepted (trials e 0 0 streams) ≡ none
        → first_accepted (trials e 1 0 streams) ≡ none
        → IsSilent x.writer round1.0.writer
    silence_twice lost lost_again =
        After-trans none x.writer (pause e 1 round0.1 round0.0).writer round1.0.writer (silent lost)
          (subst (λ o. After o (pause e 1 round0.1 round0.0).writer round1.0.writer) lost_again
            round1-IsRound.has_tried.after)

    last_Answers :
        first_accepted (trials e 1 0 streams) ≡ none
        → Answers
            (e.status_text 502)
            none
            (first_playlist e streams)
            (any is_limited (trials e 1 0 streams))
            (any is_empty_answer (trials e 1 0 streams))
            round1.0.writer
            (finish e round1.1 round1.0).writer
    last_Answers lost =
        subst
          (λ p.
            Answers (e.status_text 502) none p (any is_limited (trials e 1 0 streams))
              (any is_empty_answer (trials e 1 0 streams)) round1.0.writer
              (finish e round1.1 round1.0).writer)
          (round1-IsRound.default_is lost)
          (subst
            (λ l.
              Answers (e.status_text 502) none round1.1.default_provider l
                (any is_empty_answer (trials e 1 0 streams)) round1.0.writer
                (finish e round1.1 round1.0).writer)
            (round1-IsRound.limited_is lost ∙ or_false (any is_limited (trials e 1 0 streams)))
            (subst
              (λ u.
                Answers (e.status_text 502) none round1.1.default_provider round1.1.has_limit_error
                  u round1.0.writer (finish e round1.1 round1.0).writer)
              (round1-IsRound.upstream_is lost
                ∙ or_false (any is_empty_answer (trials e 1 0 streams)))
              (finish-Answers round1.1 round1.0)))

    pub attempts-Answers :
        Answers
          (e.status_text 502)
          (first_accepted both)
          (first_playlist e streams)
          (any is_limited (trials e 1 0 streams))
          (any is_empty_answer (trials e 1 0 streams))
          x.writer
          (attempts e 2 0 no_result streams x).writer
    attempts-Answers = elim (Option-cases (first_accepted (trials e 0 0 streams))) [
      | inr (s, won) ↦
          conclude (some s) round0.0
            (first_accepted-append_some (trials e 0 0 streams) (trials e 1 0 streams) s won)
            (won_first s won)
            (subst (λ o. After o x.writer round0.0.writer) won round0-IsRound.has_tried.after)
      | inl lost ↦
          let accepted_is =
            first_accepted-append (trials e 0 0 streams) (trials e 1 0 streams) lost in
          elim (Option-cases (first_accepted (trials e 1 0 streams))) [
            | inr (s, won) ↦
                conclude (some s) round1.0 (accepted_is ∙ won)
                  (lost_first lost ∙ rw (round1-IsRound.success ∙ ap is_some won) refl)
                  (After-trans (some s) x.writer (pause e 1 round0.1 round0.0).writer
                    round1.0.writer (silent lost)
                    (subst (λ o. After o (pause e 1 round0.1 round0.0).writer round1.0.writer) won
                      round1-IsRound.has_tried.after))
            | inl lost_again ↦
                conclude none (finish e round1.1 round1.0) (accepted_is ∙ lost_again)
                  (lost_first lost ∙ rw (round1-IsRound.success ∙ ap is_some lost_again) refl)
                  (Answers-after (e.status_text 502) none (first_playlist e streams)
                    (any is_limited (trials e 1 0 streams))
                    (any is_empty_answer (trials e 1 0 streams)) x.writer round1.0.writer
                    (finish e round1.1 round1.0).writer (silence_twice lost lost_again)
                    (last_Answers lost_again))
          ]
    ]
