-- ===== src/Guide/Once.antt =====
-- Writing a channel or a programme keeps the invariant of the streamer.
use majmun.Base.{ℕ, ◌≡◌, refl, ◌∙◌, inl, inr, Bool, true, false, none, some, List, [], ◌∷◌, arith}
use majmun.Base.Tests.{Bool-cases, Option-cases}
use majmun.Base.Lists.{All, get_or, length}
use majmun.Base.Text.{Text, text_eq, text_eq_iff, text_eq_refl}
use majmun.Base.Maps.{Map, lookup, insert, lookup-insert}
use majmun.Common.{generate_hash_id}
use majmun.Guide.{
  GuideChannel, Programme, Epg, Streamer, renamed, process_icons, process_channel,
  process_programme, candidate_ids, display_values, keep_programme, programme_key,
}
use majmun.Guide.Loops.{Item, channel, programme, Writer, encode_if, write_channel, write_programme}
use majmun.Guide.Invariant.{
  occurs, ids_of, programmes_of, is_some, IsGuide, Inv, Kept, Tried, refused, known_name, added,
  try_candidates-Tried,
}

-- A new id changes nothing for the programmes that have their channels.
has_channel-more :
    (id : Text) (ids : List Text) (ps : List Programme)
    → All (λ (p : Programme). occurs p.channel ids ≡ true) ps
    → All (λ (p : Programme). occurs p.channel (id ∷ ids) ≡ true) ps
has_channel-more id ids [] h = tt
has_channel-more id ids (p ∷ ps) h = (ground (arith, h.0), has_channel-more id ids ps h.1)

some_same : (a b : Text) → some a ≡ some b → a ≡ b
some_same a b e = cc e

module _ (sha256 : Text → List ℕ) (cancelled_at broken_at : ℕ → Bool) (names : Map Text) where
  mapped_after :
      (key id : Text) (w : Writer)
      → Inv names w
      → is_some (lookup id w.streamer.added_channels) ≡ true
      → (k j : Text) → lookup k (insert key id w.streamer.channel_id_mapping) ≡ some j
      → occurs j (ids_of w.output) ≡ true
  mapped_after key id w inv known k j e = elim (Bool-cases (text_eq key k)) [
    | inl hit ↦
        let same : some id ≡ some j =
          rw (lookup-insert key k id w.streamer.channel_id_mapping, hit) at e in
        rw (← some_same id j same) (inv.ids_added id ∙ known)
    | inr miss ↦
        inv.mapped k j (rw (lookup-insert key k id w.streamer.channel_id_mapping, miss) at e)
  ]

  map-Inv :
      (key id : Text) (w : Writer)
      → Inv names w
      → is_some (lookup id w.streamer.added_channels) ≡ true
      → Inv names (record w {
        streamer = record w.streamer {
          channel_id_mapping = insert key id w.streamer.channel_id_mapping;
        };
      })
  map-Inv key id w inv known = record {
    guide = inv.guide;
    names_same = inv.names_same;
    ids_added = inv.ids_added;
    mapped = λ k j e. mapped_after key id w inv known k j e;
    keys_added = inv.keys_added;
  }

  add-Inv :
      (key id name : Text) (vs : List Text) (ch : GuideChannel) (w : Writer)
      → Inv names w
      → lookup id w.streamer.channel_id_to_name ≡ some name
      → lookup id w.streamer.added_channels ≡ none
      → Inv names (record w {
        streamer = record w.streamer {
          channel_id_mapping = insert key id w.streamer.channel_id_mapping;
          added_channels = insert id vs w.streamer.added_channels;
        };
        output = channel (renamed id name ch) ∷ w.output;
      })
  unfolding renamed
  add-Inv key id name vs ch w inv known new = record {
    guide = record {
      ids_once = (inv.ids_added id ∙ rw new refl, inv.guide.ids_once);
      ids_known = λ j e. elim (Bool-cases (text_eq id j)) [
        | inl hit ↦ rw (← (text_eq_iff id j).0 hit, ← inv.names_same, known) refl
        | inr miss ↦ inv.guide.ids_known j (rw miss at e)
      ];
      keys_once = inv.guide.keys_once;
      has_channel =
          has_channel-more id (ids_of w.output) (programmes_of w.output) inv.guide.has_channel;
    };
    names_same = inv.names_same;
    ids_added =
        λ j. rw (lookup-insert id j vs w.streamer.added_channels) (ground (arith, inv.ids_added j));
    mapped = λ k j e. elim (Bool-cases (text_eq key k)) [
      | inl hit ↦
          let same : some id ≡ some j =
            rw (lookup-insert key k id w.streamer.channel_id_mapping, hit) at e in
          rw (← some_same id j same, text_eq_refl id) refl
      | inr miss ↦ ground (
        arith,
        inv.mapped k j (rw (lookup-insert key k id w.streamer.channel_id_mapping, miss) at e),
      )
    ];
    keys_added = inv.keys_added;
  }

  encode-Kept :
      (allowed : Bool) (item : Item) (s : Streamer) (w : Writer)
      → IsGuide names w.output
      → (allowed ≡ false → Inv names (record w { streamer = s }))
      → (allowed ≡ true → Inv names (record w { streamer = s; output = item ∷ w.output }))
      → Kept names (encode_if sha256 cancelled_at broken_at allowed item s w)
  unfolding encode_if
  encode-Kept false item s w good skip write = (λ e. skip refl, good)
  encode-Kept true item s w good skip write = elim (Bool-cases (broken_at (length w.output))) [
    | inl broken ↦ rw (broken, encode_if) (λ e. absurd (cc e), good)
    | inr fine ↦ rw (fine, encode_if) (λ e. write refl, (write refl).guide)
  ]

  Tried-Kept :
      {key : Text} {vs : List Text} {ch : GuideChannel} (w : Writer)
      {r : Bool × GuideChannel × Streamer}
      → Inv names w
      → Tried key vs ch w.streamer r
      → Kept names (encode_if sha256 cancelled_at broken_at r.0 (channel r.1) r.2 w)
  Tried-Kept {ch = ch} w inv refused =
      encode-Kept false (channel ch) _ w inv.guide (λ e. inv) (λ e. absurd (cc e))
  Tried-Kept {key} {ch = ch} w inv (known_name id k) =
      encode-Kept false (channel ch) _ w inv.guide (λ e. map-Inv key id w inv k)
        (λ e. absurd (cc e))
  Tried-Kept {key} {vs} {ch} w inv (added id name k new) =
      encode-Kept true _ _ w inv.guide (λ e. absurd (cc e))
        (λ e. add-Inv key id name vs ch w inv k new)

  pub write_channel-Kept :
      (epg : Epg) (url : Text) (ch : GuideChannel) (w : Writer)
      → Inv names w
      → Kept names (write_channel sha256 cancelled_at broken_at epg url ch w)
  unfolding write_channel process_channel
  write_channel-Kept epg url ch w inv =
      let ch' = record ch { icons = process_icons epg ch.icons } in
      Tried-Kept w inv (
        try_candidates-Tried (generate_hash_id sha256 (ch.id ∷ url ∷ [])) (display_values ch')
          (candidate_ids sha256 ch') ch' w.streamer)

  programme-Inv :
      (p : Programme) (w : Writer)
      → Inv names w
      → occurs p.channel (ids_of w.output) ≡ true
      → get_or (lookup (programme_key p) w.streamer.added_programmes) false ≡ false
      → Inv names (record w {
        streamer = record w.streamer {
          added_programmes = insert (programme_key p) true w.streamer.added_programmes;
        };
        output = programme p ∷ w.output;
      })
  programme-Inv p w inv has new = record {
    guide = record {
      ids_once = inv.guide.ids_once;
      ids_known = inv.guide.ids_known;
      keys_once = (inv.keys_added (programme_key p) ∙ new, inv.guide.keys_once);
      has_channel = (has, inv.guide.has_channel);
    };
    names_same = inv.names_same;
    ids_added = inv.ids_added;
    mapped = inv.mapped;
    keys_added = λ j.
        rw (lookup-insert (programme_key p) j true w.streamer.added_programmes)
          (ground (arith, inv.keys_added j));
  }

  mapped_programme-Kept :
      (mapped : Text) (p : Programme) (w : Writer)
      → Inv names w
      → occurs mapped (ids_of w.output) ≡ true
      → let r = keep_programme sha256 mapped p w.streamer in
        Kept names (encode_if sha256 cancelled_at broken_at r.0 (programme r.1) r.2 w)
  unfolding keep_programme
  mapped_programme-Kept mapped p w inv has =
      let p' = record p { channel = mapped } in
      elim (Bool-cases (get_or (lookup (programme_key p') w.streamer.added_programmes) false)) [
        | inl old ↦
            rw (old, keep_programme)
              (encode-Kept false _ w.streamer w inv.guide (λ k. inv) (λ k. absurd (cc k)))
        | inr new ↦
            rw (new, keep_programme)
              (encode-Kept true _ _ w inv.guide (λ k. absurd (cc k))
                (λ k. programme-Inv p' w inv has new))
      ]

  pub write_programme-Kept :
      (epg : Epg) (url : Text) (p : Programme) (w : Writer)
      → Inv names w
      → Kept names (write_programme sha256 cancelled_at broken_at epg url p w)
  unfolding write_programme process_programme
  write_programme-Kept epg url p w inv =
      let p' = record p { icons = process_icons epg p.icons } in
      let hash = generate_hash_id sha256 (p.channel ∷ url ∷ []) in
      elim (Option-cases (lookup hash w.streamer.channel_id_mapping)) [
        | inl e ↦
            rw (e, write_programme, process_programme)
              (encode-Kept false (programme p') w.streamer w inv.guide (λ k. inv)
                (λ k. absurd (cc k)))
        | inr (mapped, e) ↦
            rw (e, write_programme, process_programme)
              (mapped_programme-Kept mapped p' w inv (inv.mapped hash mapped e))
      ]
