-- ===== src/Processor/Turn.antt =====
-- What a turn of the loop of Process does to the streams and to the channels still to come.
use mathlib.Core.List.{Perm, append-nil}
use majmun.Base.{
  ℕ, ◌≡◌, ◌≢◌, refl, sym, ◌∙◌, ap, subst, inl, inr, false, Option, none, some, List, [], ◌∷◌, ◌++◌,
  arith,
}
use majmun.Base.Tests.{ltb, ==_iff, if◌then◌else◌, Bool-cases, Option-cases}
use majmun.Base.Lists.{get_or}
use majmun.Base.Text.{Text}
use majmun.Base.Maps.{Map, lookup}
use majmun.Base.RefMap.{find, put, find-put, find-erase}
use majmun.Urlgen.Types.{Url, Stream}
use majmun.Channel.{Channel}
use majmun.Store.{modify, update}
use majmun.Processor.{
  Processor, find_duplicate, track_channel, create_stream, provider_info, add_stream_to_channel,
  proxy_attrs, proxy_channel_attributes, proxied_channel, add_channel, process_channel,
}
use majmun.Processor.Attributes.{id_of, track_cases}
use majmun.Processor.Streams.{
  all_of, KeysOnce, Perm-of_eq, put-KeysOnce, erase-KeysOnce, all_of-put_new, all_of-put_more,
  all_of-supersede,
}

-- The stream that a channel has to offer.
abbrev pub stream_of : Channel → List Stream
stream_of ch =
    if ch.removed
    then []
    else elim ch.track.uri [ none ↦ [] | some uri ↦ create_stream ch uri ∷ [] ]

abbrev pub streams_of : (ℕ → Channel) → List ℕ → List Stream
streams_of memory [] = []
streams_of memory (r ∷ rs) = stream_of (memory r) ++ streams_of memory rs

pub find_nil : (r : ℕ) → find {V = List Stream} r [] ≡ none
unfolding find
find_nil r = refl

pub lookup_nil : (id : Text) → lookup {V = ℕ} id [] ≡ none
unfolding lookup
lookup_nil id = refl

-- A channel that the loop has not come to: it has no entry, and no id leads to it.
abbrev pub IsUnseen : Processor → ℕ → Type 0
IsUnseen p r =
    (find r p.channel_streams ≡ none)
    × ((id : Text) (q : ℕ) → lookup id p.channels_by_id ≡ some q → q ≢ r)

-- What a turn of the loop over channel `r` does.
pub record Turn (r : ℕ) (p p' : Processor) : Type 0 where
  pub once : KeysOnce p'.channel_streams
  pub streams :
      Perm (all_of p'.channel_streams) (all_of p.channel_streams ++ stream_of (p.store.memory r))
  pub memory_same : (q : ℕ) → r ≢ q → p'.store.memory q ≡ p.store.memory q
  pub unseen_same : (q : ℕ) → r ≢ q → IsUnseen p q → IsUnseen p' q

nothing :
    (r : ℕ) (p : Processor)
    → KeysOnce p.channel_streams
    → stream_of (p.store.memory r) ≡ []
    → Turn r p p
nothing r p h e = record {
  once = h;
  streams = rw e (Perm-of_eq (sym (append-nil (all_of p.channel_streams))));
  memory_same = λ q ne. refl;
  unseen_same = λ q ne u. u;
}

track_unseen :
    (r : ℕ) (ch : Channel) (by_id : Map ℕ) (q : ℕ)
    → r ≢ q
    → ((id : Text) (s : ℕ) → lookup id by_id ≡ some s → s ≢ q)
    → (id : Text) (s : ℕ) → lookup id (track_channel r ch by_id) ≡ some s
    → s ≢ q
track_unseen r ch by_id q ne h id s e = elim (track_cases r ch by_id id s e) [
  | inl (same, k) ↦ λ z. ne (sym same ∙ z)
  | inr old ↦ h id s old
]

found_in :
    (ch : Channel) (by_id : Map ℕ) (q : ℕ)
    → find_duplicate ch by_id ≡ some q
    → (id : Text) × (lookup id by_id ≡ some q)
unfolding find_duplicate
found_in ch by_id q e = elim (Option-cases (id_of ch)) [
  | inl k ↦ absurd (cc (rw (k, find_duplicate) at e))
  | inr (id, k) ↦ (id, rw (k, find_duplicate) at e)
]

joined-Turn :
    (existing r : ℕ) (uri : Url) (p : Processor)
    → KeysOnce p.channel_streams
    → IsUnseen p r
    → (id : Text) × (lookup id p.channels_by_id ≡ some existing)
    → (p.store.memory r).track.uri ≡ some uri
    → (p.store.memory r).removed ≡ false
    → Turn r p (add_stream_to_channel existing r p)
unfolding add_stream_to_channel
joined-Turn existing r uri p h unseen found has live =
    let ne : existing ≢ r = unseen.1 found.0 existing found.1 in
    let ch = p.store.memory r in
    let old = get_or (find existing p.channel_streams) [] in
    let offer : stream_of ch ≡ create_stream ch uri ∷ [] = rw (live, has) refl in
    elim (Bool-cases (ltb (p.store.memory existing).priority ch.priority)) [
      | inl k ↦
          rw (has, k, add_stream_to_channel)
            (record {
              once =
                  erase-KeysOnce existing _
                    (put-KeysOnce r (create_stream ch uri ∷ old) p.channel_streams h);
              streams = rw offer (
                  all_of-supersede existing r (create_stream ch uri) old p.channel_streams h ne
                    unseen.0 refl);
              memory_same = λ q n. refl;
              unseen_same = λ q n u. (
                ground (
                  arith,
                  find-erase existing q (put r (create_stream ch uri ∷ old) p.channel_streams),
                  find-put r q (create_stream ch uri ∷ old) p.channel_streams,
                  ==_iff r q,
                  u.0,
                ),
                track_unseen r ch p.channels_by_id q n u.1,
              );
            })
      | inr k ↦
          rw (has, k, add_stream_to_channel)
            (record {
              once = put-KeysOnce existing _ p.channel_streams h;
              streams =
                  rw offer (
                    all_of-put_more existing old (create_stream ch uri ∷ []) p.channel_streams
                      refl);
              memory_same = λ q n. refl;
              unseen_same = λ q n u. (
                ground (
                  arith,
                  find-put existing q (old ++ create_stream ch uri ∷ []) p.channel_streams,
                  ==_iff existing q,
                  u.0,
                  u.1 found.0 existing found.1,
                ),
                u.1,
              );
            })
    ]

duplicate-Turn :
    (existing r : ℕ) (p : Processor)
    → KeysOnce p.channel_streams
    → IsUnseen p r
    → (id : Text) × (lookup id p.channels_by_id ≡ some existing)
    → (p.store.memory r).removed ≡ false
    → Turn r p (add_stream_to_channel existing r p)
unfolding add_stream_to_channel
duplicate-Turn existing r p h unseen found live = elim (Option-cases (p.store.memory r).track.uri) [
  | inl e ↦
      let same : p ≡ add_stream_to_channel existing r p = rw (e, add_stream_to_channel) refl in
      subst (Turn r p) same (nothing r p h (rw (live, e) refl))
  | inr (uri, e) ↦ joined-Turn existing r uri p h unseen found e live
]

module _ (parse_url : Text → Option Url) where
  proxied_channel_stream :
      (ch ch' : Channel)
      → proxied_channel parse_url ch ≡ some ch'
      → (stream_of ch' ≡ stream_of ch) × (ch'.removed ≡ ch.removed)
  unfolding proxied_channel proxy_channel_attributes create_stream
  proxied_channel_stream ch ch' e = elim (Bool-cases ch.playlist.is_proxied) [
    | inr plain ↦
        let same : ch ≡ ch' = ground arith in
        (ap stream_of (sym same), ap (λ (c : Channel). c.removed) (sym same))
    | inl proxied ↦
        elim (Option-cases
          (proxy_attrs parse_url (ch.playlist.file_url (provider_info ch)) ch.track.attrs)) [
            | inl q ↦ absurd (ground arith)
            | inr (m, q) ↦
                let same : record ch { track = record ch.track { attrs = m } } ≡ ch' =
                  ground arith in
                (ap stream_of (sym same), ap (λ (c : Channel). c.removed) (sym same))
          ]
  ]

  added-Turn :
      (r : ℕ) (ch : Channel) (p : Processor)
      → KeysOnce p.channel_streams
      → IsUnseen p r
      → stream_of ch ≡ stream_of (p.store.memory r)
      → ch.removed ≡ false
      → Turn r p (add_channel parse_url r ch p)
  unfolding add_channel modify update
  added-Turn r ch p h unseen same live =
      let v = elim ch.track.uri as (λ _. List Stream) [
        | none ↦ []
        | some uri ↦ create_stream ch uri ∷ []
      ] in
      let offer : v ≡ stream_of (p.store.memory r) = rw live at same in
      record {
        once = put-KeysOnce r v p.channel_streams h;
        streams = Perm-of_eq (
            all_of-put_new r v p.channel_streams unseen.0
            ∙ ap (λ t. all_of p.channel_streams ++ t) offer);
        memory_same = λ q n. ground (arith, ==_iff r q);
        unseen_same = λ q n u. (
          ground (arith, find-put r q v p.channel_streams, ==_iff r q, u.0),
          track_unseen r ch p.channels_by_id q n u.1,
        );
      }

  pub process_channel-Turn :
      (r : ℕ) (p p' : Processor)
      → KeysOnce p.channel_streams
      → IsUnseen p r
      → process_channel parse_url r p ≡ some p'
      → Turn r p p'
  unfolding process_channel
  process_channel-Turn r p p' h unseen e = elim (Bool-cases (p.store.memory r).removed) [
    | inl gone ↦
        let same : p ≡ p' = ground arith in subst (Turn r p) same (nothing r p h (rw gone refl))
    | inr live ↦ elim (Option-cases (find_duplicate (p.store.memory r) p.channels_by_id)) [
      | inr (existing, dup) ↦
          let same : add_stream_to_channel existing r p ≡ p' = ground arith in
          subst (Turn r p) same (
            duplicate-Turn existing r p h unseen
              (found_in (p.store.memory r) p.channels_by_id existing dup) live)
      | inl new ↦ elim (Option-cases (proxied_channel parse_url (p.store.memory r))) [
        | inl failed ↦ absurd (ground arith)
        | inr (ch, done) ↦
            let same : add_channel parse_url r ch p ≡ p' = ground arith in
            subst (Turn r p) same (
              added-Turn r ch p h unseen (proxied_channel_stream (p.store.memory r) ch done).0
                ((proxied_channel_stream (p.store.memory r) ch done).1 ∙ live))
      ]
    ]
  ]
