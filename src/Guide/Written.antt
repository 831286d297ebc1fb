-- ===== src/Guide/Written.antt =====
-- What WriteTo writes, over all guides.
use majmun.Base.{ℕ, suc, ◌≡◌, refl, subst, inl, inr, Bool, Option, none, some, List, [], ◌∷◌, arith}
use majmun.Base.Tests.{Option-cases}
use majmun.Base.Lists.{All, List-cases}
use majmun.Base.Text.{Text}
use majmun.Base.Maps.{Map, lookup}
use majmun.Decoder.{start_buffering}
use majmun.Decoder.Order.{IsWell, start_buffering-contents}
use majmun.Guide.{new_streamer}
use majmun.Guide.Loops.{
  Writer, Failure, Guide, decoder_failed, fuel_for, start_all, process_channels, all_channels,
  all_programmes, written, after_start, decoders, write_to,
}
use majmun.Guide.Invariant.{IsGuide, Inv, Kept}
use majmun.Guide.Whole.{Ended, channels_loop-Ended, programmes_loop-Ended}

-- Decoders whose error is unset or whose source is at its end.
abbrev pub AllWell : List Guide → Type 0
AllWell gs = All (λ (g : Guide). IsWell g.decoder) gs

AllWell-nil : (gs : List Guide) → [] ≡ gs → AllWell gs
AllWell-nil gs e = subst AllWell e tt

start_all-AllWell :
    (reads : ℕ → ℕ) (i : ℕ) (gs gs' : List Guide)
    → AllWell gs
    → start_all reads i gs ≡ some gs'
    → AllWell gs'
unfolding start_all
start_all-AllWell reads i [] gs' h e = AllWell-nil gs' (ground arith)
start_all-AllWell reads i (g ∷ gs) gs' h e =
    elim (Option-cases (start_buffering (reads i) g.decoder).0) [
      | inr (f, k) ↦ absurd (ground arith)
      | inl k ↦ elim (Option-cases (start_all reads (suc i) gs)) [
        | inl q ↦ absurd (ground arith)
        | inr (rest, q) ↦
            let d = (start_buffering (reads i) g.decoder).1 in
            let same : record g { decoder = d } ∷ rest ≡ gs' = ground arith in
            subst AllWell same (
              (start_buffering-contents (reads i) g.decoder h.0).1,
              start_all-AllWell reads (suc i) gs rest h.1 q,
            )
      ]
    ]

-- The writer before anything is written.
abbrev pub new_writer : Map Text → Writer
new_writer names = record { streamer = new_streamer names; output = []; polls = 0 }

new_writer-Inv : (names : Map Text) → Inv names (new_writer names)
unfolding new_streamer lookup
new_writer-Inv names = record {
  guide = record {
    ids_once = tt;
    ids_known = λ j e. absurd (cc e);
    keys_once = tt;
    has_channel = tt;
  };
  names_same = refl;
  ids_added = λ j. refl;
  mapped = λ k j e. absurd (cc e);
  keys_added = λ j. refl;
}

module _ (sha256 : Text → List ℕ) (cancelled_at broken_at : ℕ → Bool) (names : Map Text) where
  process_channels-Ended :
      (n : ℕ) (g : Guide) (w : Writer)
      → Inv names w
      → IsWell g.decoder
      → Ended names (process_channels sha256 cancelled_at broken_at (fuel_for g) n g w)
  unfolding process_channels fuel_for
  process_channels-Ended n g w inv well =
      let (o, e, kept, well') =
        channels_loop-Ended sha256 cancelled_at broken_at names (fuel_for g) g w inv well
          (omega arith) in
      rw (e, process_channels) (_, refl, kept, (start_buffering-contents n o.guide.decoder well').1)

  all_channels-Kept :
      (reads : ℕ → ℕ) (i : ℕ) (gs : List Guide) (w : Writer)
      → Inv names w
      → AllWell gs
      → (e : Option Failure) × (gs' : List Guide) × (w' : Writer) × (all_channels sha256
            cancelled_at broken_at reads i gs w
          ≡ some (e, gs', w'))
        × Kept names (e, w')
        × AllWell gs'
  unfolding all_channels
  all_channels-Kept reads i [] w inv h = (none, [], w, refl, (λ k. inv, inv.guide), tt)
  all_channels-Kept reads i (g ∷ gs) w inv h =
      let (o, e, kept, well) = process_channels-Ended (reads i) g w inv h.0 in
      elim (Option-cases o.failure) [
        | inr (f, k) ↦ (
          some f,
          o.guide ∷ gs,
          o.writer,
          rw (e, k, all_channels) refl,
          (λ z. absurd (cc z), kept.1),
          (well, h.1),
        )
        | inl k ↦
            let (e', gs', w', q, kept', wells) =
              all_channels-Kept reads (suc i) gs o.writer (kept.0 k) h.1 in
            (e', o.guide ∷ gs', w', rw (e, k, q, all_channels) refl, kept', (well, wells))
      ]

  all_programmes-Kept :
      (gs : List Guide) (w : Writer)
      → Inv names w
      → AllWell gs
      → (e : Option Failure) × (w' : Writer) × (all_programmes sha256 cancelled_at broken_at gs w
          ≡ some (e, w'))
        × Kept names (e, w')
  unfolding all_programmes
  all_programmes-Kept [] w inv h = (none, w, refl, (λ k. inv, inv.guide))
  all_programmes-Kept (g ∷ gs) w inv h =
      let (o, e, kept, well) =
        programmes_loop-Ended sha256 cancelled_at broken_at names (fuel_for g) g w inv h.0
          (unfold fuel_for in omega arith) in
      elim (Option-cases o.failure) [
        | inr (f, k) ↦
            (some f, o.writer, rw (e, k, all_programmes) refl, (λ z. absurd (cc z), kept.1))
        | inl k ↦
            let (e', w', q, kept') = all_programmes-Kept gs o.writer (kept.0 k) h.1 in
            (e', w', rw (e, k, all_programmes) q, kept')
      ]

  written-IsGuide :
      (e : Option Failure) (w : Writer)
      → IsGuide names w.output
      → IsGuide names (written sha256 cancelled_at broken_at (e, w)).1.output
  unfolding written
  written-IsGuide (some f) w h = h
  written-IsGuide none w h = elim (List-cases w.output) [
    | inl e ↦
        let same : (written sha256 cancelled_at broken_at (none, w)).1 ≡ w = ground arith in
        rw same h
    | inr (x, xs, e) ↦
        let same : (written sha256 cancelled_at broken_at (none, w)).1 ≡ w = ground arith in
        rw same h
  ]

  after_start-IsGuide :
      (reads : ℕ → ℕ) (gs : List Guide) (w : Writer)
      → Inv names w
      → AllWell gs
      → (r : Option Failure × Writer) × (after_start sha256 cancelled_at broken_at reads gs w
          ≡ some r)
        × IsGuide names r.1.output
  unfolding after_start
  after_start-IsGuide reads gs w inv h =
      let (e, gs', w', q, kept, wells) = all_channels-Kept reads 0 gs w inv h in
      elim (Option-cases e) [
        | inr (f, k) ↦ ((some f, w'), rw (q, k, after_start) refl, kept.1)
        | inl k ↦
            let (e', w'', p, kept') = all_programmes-Kept gs' w' (kept.0 k) wells in
            (
              written sha256 cancelled_at broken_at (e', w''),
              rw (q, k, p, after_start) refl,
              written-IsGuide e' w'' kept'.1,
            )
      ]

-- WriteTo ends, whatever the guides hold, however the background reads fall and wherever the context
-- is cancelled or the encoder fails, provided that the error of a decoder is unset unless its source
-- is at its end. What it has written then has each channel id once, only ids of channels of the
-- playlist, each programme key once, and each programme under a channel that is written.
pub write_to-IsGuide :
    (sha256 : Text → List ℕ) (cancelled_at broken_at : ℕ → Bool) (names : Map Text)
    (reads₀ reads : ℕ → ℕ) (subs : List (List Guide))
    → AllWell (decoders subs)
    → (r : Option Failure × Writer) × (write_to sha256 cancelled_at broken_at reads₀ reads subs
          (new_writer names)
        ≡ some r)
      × IsGuide names r.1.output
unfolding write_to
write_to-IsGuide sha256 cancelled_at broken_at names reads₀ reads [] h =
    (_, refl, (new_writer-Inv names).guide)
write_to-IsGuide sha256 cancelled_at broken_at names reads₀ reads (sub ∷ subs) h =
    let gs = decoders (sub ∷ subs) in
    elim (Option-cases (start_all reads₀ 0 gs)) [
      | inl q ↦ (
        (some decoder_failed, new_writer names),
        rw (q, write_to) refl,
        (new_writer-Inv names).guide,
      )
      | inr (gs', q) ↦
          let (r, e, good) =
            after_start-IsGuide sha256 cancelled_at broken_at names reads gs' (new_writer names)
              (new_writer-Inv names) (start_all-AllWell reads₀ 0 gs gs' h q) in
          (r, rw (q, write_to) e, good)
    ]
