-- ===== src/Processor/Conserved.antt =====
-- No stream is lost while the channels are grouped.
use mathlib.Core.List.{Perm, append_assoc, append-nil}
use mathlib.Core.List.Perm
use majmun.Base.{
  ℕ, ◌≡◌, refl, sym, ◌∙◌, ap, subst, inl, inr, Option, some, List, [], ◌∷◌, ◌++◌, arith,
}
use majmun.Base.Tests.{Option-cases}
use majmun.Base.Lists.{All}
use majmun.Base.Text.{Text}
use majmun.Urlgen.Types.{Url}
use majmun.Store.{Store}
use majmun.Store.Laws.{Avoids, Distinct}
use majmun.Processor.{Processor, new_processor, process_channel, process_channels}
use majmun.Processor.Streams.{all_of, KeysOnce, Perm-of_eq}
use majmun.Processor.Turn.{
  stream_of, streams_of, IsUnseen, Turn, find_nil, lookup_nil, process_channel-Turn,
}

module _ (parse_url : Text → Option Url) where
  -- All channels still to come are unseen.
  AllUnseen-Turn :
      (r : ℕ) (rs : List ℕ) (p p' : Processor)
      → Turn r p p'
      → Avoids r rs
      → All (IsUnseen p) rs
      → All (IsUnseen p') rs
  AllUnseen-Turn r [] p p' t a h = tt
  AllUnseen-Turn r (q ∷ rs) p p' t a h =
      (t.unseen_same q a.0 h.0, AllUnseen-Turn r rs p p' t a.1 h.1)

  streams_of-Turn :
      (r : ℕ) (rs : List ℕ) (p p' : Processor)
      → Turn r p p'
      → Avoids r rs
      → streams_of p'.store.memory rs ≡ streams_of p.store.memory rs
  streams_of-Turn r [] p p' t a = refl
  streams_of-Turn r (q ∷ rs) p p' t a =
      ap (λ c. stream_of c ++ streams_of p'.store.memory rs) (t.memory_same q a.0)
      ∙ ap (λ l. stream_of (p.store.memory q) ++ l) (streams_of-Turn r rs p p' t a.1)

  process_channels-streams :
      (rs : List ℕ) (p p' : Processor)
      → KeysOnce p.channel_streams
      → Distinct rs
      → All (IsUnseen p) rs
      → process_channels parse_url rs p ≡ some p'
      → Perm (all_of p'.channel_streams) (all_of p.channel_streams ++ streams_of p.store.memory rs)
  unfolding process_channels
  process_channels-streams [] p p' h d u e =
      let same : p ≡ p' = ground arith in
      rw (← same) (Perm-of_eq (sym (append-nil (all_of p.channel_streams))))
  process_channels-streams (r ∷ rs) p p' h d u e =
      elim (Option-cases (process_channel parse_url r p)) [
        | inl failed ↦ absurd (ground arith)
        | inr (p₁, done) ↦
            let t = process_channel-Turn parse_url r p p₁ h u.0 done in
            let rest =
              process_channels-streams rs p₁ p' t.once d.1 (AllUnseen-Turn r rs p p₁ t d.0 u.1)
                (ground arith) in
            let rest' : Perm (all_of p'.channel_streams)
                (all_of p₁.channel_streams ++ streams_of p.store.memory rs) =
              subst (λ l. Perm (all_of p'.channel_streams) (all_of p₁.channel_streams ++ l))
                (streams_of-Turn r rs p p₁ t d.0) rest in
            Perm.trans rest' (
              Perm.trans (Perm.append_right (streams_of p.store.memory rs) t.streams)
                (Perm-of_eq (append_assoc (all_of p.channel_streams) _ _)))
      ]

-- Where Process groups the channels of a store that holds each once, the streams of all entries of
-- `channel_streams` are a rearrangement of the streams of the channels that are not removed and have a
-- URI: whichever channels take the place of others, no stream is lost, doubled or made up.
pub process_channels_conserve :
    (parse_url : Text → Option Url) (st : Store) (p : Processor)
    → Distinct st.channels
    → process_channels parse_url st.channels (new_processor st) ≡ some p
    → Perm (all_of p.channel_streams) (streams_of st.memory st.channels)
unfolding new_processor
process_channels_conserve parse_url st p d e =
    process_channels-streams parse_url st.channels (new_processor st) p tt d (unseen st.channels) e
  where
    unseen : (rs : List ℕ) → All (IsUnseen (new_processor st)) rs
    unseen [] = tt
    unseen (r ∷ rs) = ((find_nil r, λ id q k. absurd (cc (sym (lookup_nil id) ∙ k))), unseen rs)
