-- ===== src/Processor/Invariant.antt =====
-- The invariant of the loop of Process over the channels.
use majmun.Base.{ℕ, ◌≡◌, sym, ◌∙◌, ap, inl, inr, true, false, Option, none, some, List, arith}
use majmun.Base.Tests.{ltb, ◌==◌, ==_iff, if◌then◌else◌, Bool-cases, Option-cases}
use majmun.Base.Text.{Text}
use majmun.Base.Maps.{Map, lookup}
use majmun.Base.RefMap.{RefMap, put, erase, find-put, find-erase}
use majmun.Urlgen.Types.{Url, Stream}
use majmun.Channel.{Channel, attr_tvg_id, get_attr}
use majmun.Store.{modify, non_empty, update}
use majmun.Processor.{
  Processor, find_duplicate, track_channel, add_stream_to_channel, is_file_url, add_channel,
  has_streams,
}
use majmun.Processor.Attributes.{id_of, track_hit, track_cases, track_keeps}

has_streams-put :
    (k q : ℕ) (v : List Stream) (m : RefMap (List Stream))
    → has_streams (put k v m) q ≡ (if k == q then true else has_streams m q)
unfolding has_streams
has_streams-put k q v m = ground (arith, find-put k q v m)

has_streams-erase :
    (k q : ℕ) (m : RefMap (List Stream))
    → has_streams (erase k m) q ≡ (if k == q then false else has_streams m q)
unfolding has_streams
has_streams-erase k q m = ground (arith, find-erase k q m)

-- The channels keep the ids and playlists that they began with, and the channel of an id is the one
-- by which it is found.
pub record Inv (first : ℕ → Channel) (p : Processor) : Type 0 where
  pub ids : (q : ℕ) → get_attr (p.store.memory q) attr_tvg_id ≡ get_attr (first q) attr_tvg_id
  pub playlists : (q : ℕ) → (p.store.memory q).playlist ≡ (first q).playlist
  pub owner :
      (q : ℕ) (id : Text)
      → has_streams p.channel_streams q ≡ true
      → id_of (first q) ≡ some id
      → lookup id p.channels_by_id ≡ some q
  pub back : (q : ℕ) (id : Text) → lookup id p.channels_by_id ≡ some q → id_of (first q) ≡ some id

-- The id of a channel in a proxied playlist is no URL with a host.
abbrev pub PlainIds : (Text → Option Url) → (ℕ → Channel) → Type 0
PlainIds parse_url first =
    (q : ℕ) (v : Text)
    → get_attr (first q) attr_tvg_id ≡ some v
    → (first q).playlist.is_proxied ≡ true
    → is_file_url parse_url v ≡ false

found_under :
    (by_id : Map ℕ) (ch : Channel) (id : Text)
    → id_of ch ≡ some id
    → find_duplicate ch by_id ≡ lookup id by_id
unfolding find_duplicate
found_under by_id ch id e = rw (e, find_duplicate)

module _ (parse_url : Text → Option Url) (first : ℕ → Channel)
    (plain : PlainIds parse_url first) where
  pub add_channel-Inv :
      (r : ℕ) (ch : Channel) (p : Processor)
      → Inv first p
      → find_duplicate (first r) p.channels_by_id ≡ none
      → get_attr ch attr_tvg_id ≡ get_attr (first r) attr_tvg_id
      → ch.playlist ≡ (first r).playlist
      → Inv first (add_channel parse_url r ch p)
  unfolding add_channel modify update find_duplicate
  add_channel-Inv r ch p inv new same_id same_playlist = record {
    ids = λ q. ground (arith, inv.ids q);
    playlists = λ q. ground (arith, inv.playlists q);
    owner = λ q id has e. elim (Bool-cases (r == q)) [
      | inl hit ↦
          let same = (==_iff r q).0 hit in
          rw (← same) (track_hit r ch p.channels_by_id id (rw same_id (rw (← same) at e)))
      | inr miss ↦
          let old = inv.owner q id (rw (has_streams-put, miss) at has) e in
          track_keeps r ch p.channels_by_id id q old (λ k.
            absurd (cc (found_under p.channels_by_id (first r) id (rw same_id at k), new, old)))
    ];
    back = λ q id e. elim (track_cases r ch p.channels_by_id id q e) [
      | inl (same, k) ↦ rw (same, ← same_id) k
      | inr old ↦ inv.back q id old
    ];
  }

  id_same : (p : Processor) → Inv first p → (q : ℕ) → id_of (p.store.memory q) ≡ id_of (first q)
  id_same p inv q = ap non_empty (inv.ids q)

  -- A channel takes the place of the one that had its id.
  supersede-Inv :
      (existing r : ℕ) (id : Text) (streams : List Stream) (p : Processor)
      → Inv first p
      → id_of (p.store.memory r) ≡ some id
      → lookup id p.channels_by_id ≡ some existing
      → Inv first (record p {
        channel_streams = erase existing (put r streams p.channel_streams);
        channels_by_id = track_channel r (p.store.memory r) p.channels_by_id;
      })
  supersede-Inv existing r id streams p inv has_id found = record {
    ids = inv.ids;
    playlists = inv.playlists;
    owner = λ q i has e. elim (Bool-cases (existing == q)) [
      | inl gone ↦ absurd (cc (rw (has_streams-erase, gone) at has))
      | inr kept ↦ elim (Bool-cases (r == q)) [
        | inl hit ↦
            let same = (==_iff r q).0 hit in
            rw (← same) (
              track_hit r (p.store.memory r) p.channels_by_id i
                (id_same p inv r ∙ rw (← same) at e))
        | inr miss ↦
            let old =
              inv.owner q i (rw (has_streams-erase, kept, has_streams-put, miss) at has) e in
            track_keeps r (p.store.memory r) p.channels_by_id i q old (λ k.
              let ids_same : some id ≡ some i = sym has_id ∙ k in
              let one : some existing ≡ some q =
                sym found
                ∙ ap
                    (λ (o : Option Text). elim o [
                      | none ↦ none
                      | some x ↦ lookup x p.channels_by_id
                    ])
                    ids_same
                ∙ old in
              absurd (ground arith))
      ]
    ];
    back = λ q i e. elim (track_cases r (p.store.memory r) p.channels_by_id i q e) [
      | inl (same, k) ↦ rw same (sym (id_same p inv r) ∙ k)
      | inr old ↦ inv.back q i old
    ];
  }

  -- A channel keeps its id and takes one more stream.
  append-Inv :
      (existing : ℕ) (id : Text) (streams : List Stream) (p : Processor)
      → Inv first p
      → lookup id p.channels_by_id ≡ some existing
      → Inv first (record p { channel_streams = put existing streams p.channel_streams })
  append-Inv existing id streams p inv found = record {
    ids = inv.ids;
    playlists = inv.playlists;
    owner = λ q i has e. elim (Bool-cases (existing == q)) [
      | inl hit ↦
          let same = (==_iff existing q).0 hit in
          let ids_same : some id ≡ some i = sym (inv.back existing id found) ∙ rw (← same) at e in
          sym (
            ap (λ (o : Option Text). elim o [ none ↦ none | some x ↦ lookup x p.channels_by_id ])
              ids_same)
          ∙ found
          ∙ ap {B = Option ℕ} some same
      | inr miss ↦ inv.owner q i (rw (has_streams-put, miss) at has) e
    ];
    back = inv.back;
  }

  find-split :
      (ch : Channel) (by_id : Map ℕ) (existing : ℕ)
      → find_duplicate ch by_id ≡ some existing
      → (id : Text) × (id_of ch ≡ some id) × (lookup id by_id ≡ some existing)
  unfolding find_duplicate
  find-split ch by_id existing e = elim (Option-cases (id_of ch)) [
    | inl k ↦ absurd (cc (rw (k, find_duplicate) at e))
    | inr (id, k) ↦ (id, k, rw (k, find_duplicate) at e)
  ]

  pub add_stream-Inv :
      (existing r : ℕ) (p : Processor)
      → Inv first p
      → find_duplicate (p.store.memory r) p.channels_by_id ≡ some existing
      → Inv first (add_stream_to_channel existing r p)
  unfolding add_stream_to_channel
  add_stream-Inv existing r p inv dup =
      let (id, has_id, found) = find-split (p.store.memory r) p.channels_by_id existing dup in
      elim (Option-cases (p.store.memory r).track.uri) [
        | inl e ↦ rw (e, add_stream_to_channel) inv
        | inr (uri, e) ↦
            elim (Bool-cases (ltb (p.store.memory existing).priority (p.store.memory r).priority)) [
              | inl k ↦
                  rw (e, k, add_stream_to_channel)
                    (supersede-Inv existing r id _ p inv has_id found)
              | inr k ↦ rw (e, k, add_stream_to_channel) (append-Inv existing id _ p inv found)
            ]
      ]
