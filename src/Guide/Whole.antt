-- ===== src/Guide/Whole.antt =====
-- The loops of the streamer end, and what they have written is a guide.
use majmun.Base.{
  ℕ, zero, suc, ◌≡◌, ◌<◌, refl, ap, ◌⊎◌, inl, inr, Bool, Option, none, some, List, arith,
}
use majmun.Base.Tests.{Bool-cases, Option-cases}
use majmun.Base.Lists.{length}
use majmun.Base.Text.{Text}
use majmun.Base.Maps.{Map}
use majmun.Base.Result.{Result-cases}
use majmun.Decoder.{next_item, add_to_buffer}
use majmun.Decoder.Order.{contents, IsWell, next_item-contents, next_item-keeps}
use majmun.Guide.{GuideChannel, Programme}
use majmun.Guide.Loops.{
  Item, channel, programme, other, Writer, Failure, Guide, Outcome, cancelled, polled, failure_of,
  channels_loop, programmes_loop, write_channel, write_programme,
}
use majmun.Guide.Invariant.{Inv, Kept}
use majmun.Guide.Once.{write_channel-Kept, write_programme-Kept}

Item-cases :
    (x : Item)
    → ((ch : GuideChannel) × (x ≡ channel ch)) ⊎ ((p : Programme) × (x ≡ programme p)) ⊎ (x ≡ other)
Item-cases (channel ch) = inl (ch, refl)
Item-cases (programme p) = inr (inl (p, refl))
Item-cases other = inr (inr refl)

polled-Inv : (names : Map Text) (w : Writer) → Inv names w → Inv names (polled w)
unfolding polled
polled-Inv names w inv = record {
  guide = inv.guide;
  names_same = inv.names_same;
  ids_added = inv.ids_added;
  mapped = inv.mapped;
  keys_added = inv.keys_added;
}

-- A loop came to an end, with a guide written and a decoder that can go on.
abbrev pub Ended : Map Text → Option Outcome → Type 0
Ended names r =
    (o : Outcome) × (r ≡ some o) × Kept names (o.failure, o.writer) × IsWell o.guide.decoder

end_now :
    (names : Map Text) (e : Option Failure) (g : Guide) (w : Writer)
    → Inv names w
    → IsWell g.decoder
    → Ended names (some (record { failure = e; guide = g; writer = w }))
end_now names e g w inv well = (_, refl, (λ k. inv, inv.guide), well)

module _ (sha256 : Text → List ℕ) (cancelled_at broken_at : ℕ → Bool) (names : Map Text) where
  pub channels_loop-Ended :
      (fuel : ℕ) (g : Guide) (w : Writer)
      → Inv names w
      → IsWell g.decoder
      → length (contents g.decoder) < fuel
      → Ended names (channels_loop sha256 cancelled_at broken_at fuel g w)
  unfolding channels_loop
  channels_loop-Ended zero g w inv well k = absurd (omega arith)
  channels_loop-Ended (suc fuel) g w inv well k =
      let inv' = polled-Inv names w inv in
      elim (Bool-cases (cancelled_at w.polls)) [
        | inl c ↦ rw (c, channels_loop) (end_now names (some cancelled) g (polled w) inv' well)
        | inr live ↦ elim (Result-cases (next_item g.decoder).0) [
          | inl (e, r) ↦
              rw (live, r, channels_loop)
                (end_now names (failure_of e) (record g { decoder = (next_item g.decoder).1 })
                  (polled w) inv' (next_item-keeps g.decoder e r well))
          | inr (x, r) ↦
              let (same, well') = next_item-contents g.decoder x r well in
              let shorter : length (contents (next_item g.decoder).1) < fuel =
                omega (arith, k, ap length same) in
              elim (Item-cases x) [
                | inl (ch, i) ↦
                    let kept =
                      write_channel-Kept sha256 cancelled_at broken_at names g.subscription
                        g.source_url ch (polled w) inv' in
                    elim (Option-cases
                      (write_channel sha256 cancelled_at broken_at g.subscription g.source_url ch
                        (polled w)).0) [
                          | inr (f, q) ↦
                              rw (live, r, i, q, channels_loop)
                                (_, refl, (λ z. absurd (cc z), kept.1), well')
                          | inl q ↦
                              rw (live, r, i, q, channels_loop)
                                (channels_loop-Ended fuel _ _ (kept.0 q) well' shorter)
                        ]
                | inr (inl (p, i)) ↦
                    rw (live, r, i, channels_loop)
                      (end_now names none _ (polled w) inv' (unfold add_to_buffer in well'))
                | inr (inr i) ↦
                    rw (live, r, i, channels_loop)
                      (channels_loop-Ended fuel _ (polled w) inv' well' shorter)
              ]
        ]
      ]

  pub programmes_loop-Ended :
      (fuel : ℕ) (g : Guide) (w : Writer)
      → Inv names w
      → IsWell g.decoder
      → length (contents g.decoder) < fuel
      → Ended names (programmes_loop sha256 cancelled_at broken_at fuel g w)
  unfolding programmes_loop
  programmes_loop-Ended zero g w inv well k = absurd (omega arith)
  programmes_loop-Ended (suc fuel) g w inv well k =
      let inv' = polled-Inv names w inv in
      elim (Bool-cases (cancelled_at w.polls)) [
        | inl c ↦ rw (c, programmes_loop) (end_now names (some cancelled) g (polled w) inv' well)
        | inr live ↦ elim (Result-cases (next_item g.decoder).0) [
          | inl (e, r) ↦
              rw (live, r, programmes_loop)
                (end_now names (failure_of e) (record g { decoder = (next_item g.decoder).1 })
                  (polled w) inv' (next_item-keeps g.decoder e r well))
          | inr (x, r) ↦
              let (same, well') = next_item-contents g.decoder x r well in
              let shorter : length (contents (next_item g.decoder).1) < fuel =
                omega (arith, k, ap length same) in
              elim (Item-cases x) [
                | inl (ch, i) ↦
                    rw (live, r, i, programmes_loop)
                      (programmes_loop-Ended fuel _ (polled w) inv' well' shorter)
                | inr (inl (p, i)) ↦
                    let kept =
                      write_programme-Kept sha256 cancelled_at broken_at names g.subscription
                        g.source_url p (polled w) inv' in
                    elim (Option-cases
                      (write_programme sha256 cancelled_at broken_at g.subscription g.source_url p
                        (polled w)).0) [
                          | inr (f, q) ↦
                              rw (live, r, i, q, programmes_loop)
                                (_, refl, (λ z. absurd (cc z), kept.1), well')
                          | inl q ↦
                              rw (live, r, i, q, programmes_loop)
                                (programmes_loop-Ended fuel _ _ (kept.0 q) well' shorter)
                        ]
                | inr (inr i) ↦
                    rw (live, r, i, programmes_loop)
                      (programmes_loop-Ended fuel _ (polled w) inv' well' shorter)
              ]
        ]
      ]
