-- ===== src/Guide/Loops.antt =====
-- internal/listing/xmltv/streamer.go: the loops of the streamer over its decoders. `cancelled_at i` is
-- whether the context is done at its i-th poll, `broken_at n` whether the encoder fails after `n`
-- items. A guide is the EPG, the URL and the decoder of a decoderWrapper. The loops run on fuel;
-- `none` is that it ran out.
use majmun.Base.{ℕ, zero, suc, Bool, Option, none, some, List, [], ◌∷◌, ◌++◌}
use majmun.Base.Tests.{if◌then◌else◌}
use majmun.Base.Lists.{length}
use majmun.Base.Text.{Text}
use majmun.Base.Result.{ok, err}
use majmun.Decoder.{BaseDecoder, Stop, eof, failed, next_item, add_to_buffer, start_buffering}
use majmun.Decoder.Order.{contents}
use majmun.Guide.{
  GuideChannel, Programme, Epg, Streamer, process_icons, process_channel, process_programme,
}

-- `other` is an item of no interest.
pub data Item : Type 0 where
  channel : GuideChannel → Item
  programme : Programme → Item
  other : Item

-- The streamer, what it wrote, newest first, and how often it polled.
pub record Writer : Type 0 where
  pub streamer : Streamer
  pub output : List Item
  pub polls : ℕ

pub data Failure : Type 0 where
  no_sources cancelled decoder_failed encoder_failed no_data : Failure

pub record Guide : Type 0 where
  pub subscription : Epg
  pub source_url : Text
  pub decoder : BaseDecoder Item

pub record Outcome : Type 0 where
  pub failure : Option Failure
  pub guide : Guide
  pub writer : Writer

unfoldable pub polled : Writer → Writer
polled w = record w { polls = suc w.polls }

unfoldable pub failure_of : Stop → Option Failure
failure_of eof = none
failure_of failed = some decoder_failed

-- Enough for a loop over a guide.
unfoldable pub fuel_for : Guide → ℕ
fuel_for g = suc (length (contents g.decoder))

-- StartBuffering on all decoders; `none` is an error of init.
unfoldable pub start_all : (ℕ → ℕ) → ℕ → List Guide → Option (List Guide)
start_all reads i [] = some []
start_all reads i (g ∷ gs) =
    let (e, d) = start_buffering (reads i) g.decoder in
    let rest = start_all reads (suc i) gs in
    elim e [
      | some f ↦ none
      | none ↦ elim rest [ none ↦ none | some gs' ↦ some (record g { decoder = d } ∷ gs') ]
    ]

-- The decoders of all subscriptions, in their order.
abbrev pub decoders : List (List Guide) → List Guide
decoders [] = []
decoders (sub ∷ subs) = sub ++ decoders subs

module _ (sha256 : Text → List ℕ) (cancelled_at broken_at : ℕ → Bool) where
  -- A call of Encode on an item that is allowed.
  unfoldable pub encode_if : Bool → Item → Streamer → Writer → Option Failure × Writer
  encode_if allowed item s w =
      if allowed
      then (if broken_at (length w.output)
          then (some encoder_failed, record w { streamer = s })
          else (none, record w { streamer = s; output = item ∷ w.output }))
      else (none, record w { streamer = s })

  unfoldable pub write_channel : Epg → Text → GuideChannel → Writer → Option Failure × Writer
  unfolding encode_if
  write_channel epg url ch w =
      let (allowed, ch', s) =
        process_channel sha256 (record ch { icons = process_icons epg ch.icons }) url w.streamer in
      encode_if allowed (channel ch') s w

  unfoldable pub write_programme : Epg → Text → Programme → Writer → Option Failure × Writer
  unfolding encode_if
  write_programme epg url p w =
      let (allowed, p', s) =
        process_programme sha256 (record p { icons = process_icons epg p.icons }) url w.streamer in
      encode_if allowed (programme p') s w

  abbrev outcome : Option Failure → Guide → Writer → Outcome
  outcome e g w = record { failure = e; guide = g; writer = w }

  unfoldable pub channels_loop : ℕ → Guide → Writer → Option Outcome
  unfolding failure_of
  channels_loop zero g w = none
  channels_loop (suc fuel) g w =
      let w' = polled w in
      let (r, d) = next_item g.decoder in
      let g' = record g { decoder = d } in
      if cancelled_at w.polls then some (outcome (some cancelled) g w') else elim r [
        | err e ↦ some (outcome (failure_of e) g' w')
        | ok x ↦ elim x [
          | programme p ↦
              some (outcome none (record g { decoder = add_to_buffer (programme p ∷ []) d }) w')
          | channel ch ↦
              let (e, w'') = write_channel g.subscription g.source_url ch w' in
              elim e [ some f ↦ some (outcome (some f) g' w'') | none ↦ channels_loop fuel g' w'' ]
          | other ↦ channels_loop fuel g' w'
        ]
      ]

  unfoldable pub programmes_loop : ℕ → Guide → Writer → Option Outcome
  unfolding failure_of
  programmes_loop zero g w = none
  programmes_loop (suc fuel) g w =
      let w' = polled w in
      let (r, d) = next_item g.decoder in
      let g' = record g { decoder = d } in
      if cancelled_at w.polls then some (outcome (some cancelled) g w') else elim r [
        | err e ↦ some (outcome (failure_of e) g' w')
        | ok x ↦ elim x [
          | channel ch ↦ programmes_loop fuel g' w'
          | programme p ↦
              let (e, w'') = write_programme g.subscription g.source_url p w' in
              elim e [
                | some f ↦ some (outcome (some f) g' w'')
                | none ↦ programmes_loop fuel g' w''
              ]
          | other ↦ programmes_loop fuel g' w'
        ]
      ]

  unfoldable pub process_channels : ℕ → ℕ → Guide → Writer → Option Outcome
  unfolding channels_loop
  process_channels fuel n g w = elim (channels_loop fuel g w) [
    | none ↦ none
    | some o ↦ some (
        outcome o.failure (record o.guide { decoder = (start_buffering n o.guide.decoder).1 })
          o.writer)
  ]

  -- The loop over the decoders for their channels; `reads i` is what the goroutine of the i-th decoder
  -- reads after it. The guides that are left come back beside what is written.
  unfoldable pub all_channels :
      (ℕ → ℕ) → ℕ → List Guide → Writer → Option (Option Failure × List Guide × Writer)
  unfolding process_channels
  all_channels reads i [] w = some (none, [], w)
  all_channels reads i (g ∷ gs) w = elim (process_channels (fuel_for g) (reads i) g w) [
    | none ↦ none
    | some o ↦ elim o.failure [
      | some f ↦ some (some f, o.guide ∷ gs, o.writer)
      | none ↦ elim (all_channels reads (suc i) gs o.writer) [
        | none ↦ none
        | some (e, gs', w') ↦ some (e, o.guide ∷ gs', w')
      ]
    ]
  ]

  unfoldable pub all_programmes : List Guide → Writer → Option (Option Failure × Writer)
  unfolding programmes_loop
  all_programmes [] w = some (none, w)
  all_programmes (g ∷ gs) w = elim (programmes_loop (fuel_for g) g w) [
    | none ↦ none
    | some o ↦ elim o.failure [
      | some f ↦ some (some f, o.writer)
      | none ↦ all_programmes gs o.writer
    ]
  ]

  unfoldable pub written : Option Failure × Writer → Option Failure × Writer
  written (some f, w) = (some f, w)
  written (none, w) = elim w.output [ [] ↦ (some no_data, w) | x ∷ xs ↦ (none, w) ]

  unfoldable pub after_start : (ℕ → ℕ) → List Guide → Writer → Option (Option Failure × Writer)
  unfolding all_channels all_programmes written
  after_start reads gs w = elim (all_channels reads 0 gs w) [
    | none ↦ none
    | some (some f, gs', w') ↦ some (some f, w')
    | some (none, gs', w') ↦ elim (all_programmes gs' w') [
      | none ↦ none
      | some r ↦ some (written r)
    ]
  ]

  -- WriteTo up to the footer. A subscription is the guides of its URLs, and `reads₀` is what the goroutines read before the channels.
  unfoldable pub write_to :
      (ℕ → ℕ) → (ℕ → ℕ) → List (List Guide) → Writer → Option (Option Failure × Writer)
  unfolding after_start start_all
  write_to reads₀ reads [] w = some (some no_sources, w)
  write_to reads₀ reads (sub ∷ subs) w = elim (start_all reads₀ 0 (decoders (sub ∷ subs))) [
    | none ↦ some (some decoder_failed, w)
    | some gs' ↦ after_start reads gs' w
  ]
