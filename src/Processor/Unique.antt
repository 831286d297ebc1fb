-- ===== src/Processor/Unique.antt =====
-- The result of the processor holds each tvg-id once.
use majmun.Base.{
  ℕ, ◌≡◌, refl, sym, ◌∙◌, ap, inl, inr, Bool, true, Option, none, some, List, [], ◌∷◌, subst, arith,
}
use majmun.Base.Tests.{◌==◌, ==_iff, Bool-cases, Option-cases}
use majmun.Base.Lists.{any, keep}
use majmun.Base.Text.{Text}
use majmun.Base.Maps.{Map, lookup}
use majmun.Base.RefMap.{RefMap, find}
use majmun.Base.Result.{ok}
use majmun.Urlgen.Types.{Url, Stream}
use majmun.Channel.{Channel, Playlist, attr_tvg_id, get_attr, set_uri}
use majmun.Store.{Store, modify, update, non_empty}
use majmun.Processor.{
  Processor, new_processor, find_duplicate, proxied_channel, process_channel, process_channels,
  has_streams, proxied_uri, update_uris, collect_results, group_streams,
}
use majmun.Processor.Attributes.{id_of, proxied_channel_keeps}
use majmun.Processor.Invariant.{Inv, PlainIds, add_channel-Inv, add_stream-Inv}

new_processor-Inv : (st : Store) → Inv st.memory (new_processor st)
unfolding new_processor has_streams find lookup
new_processor-Inv st = record {
  ids = λ q. refl;
  playlists = λ q. refl;
  owner = λ q id has e. absurd (cc has);
  back = λ q id e. absurd (cc e);
}

duplicate_same :
    (a b : Channel) (by_id : Map ℕ)
    → get_attr a attr_tvg_id ≡ get_attr b attr_tvg_id
    → find_duplicate a by_id ≡ find_duplicate b by_id
unfolding find_duplicate
duplicate_same a b by_id e =
    ap
      (λ (o : Option Text). elim (non_empty o) as (λ _. Option ℕ) [
        | none ↦ none
        | some id ↦ lookup id by_id
      ])
      e

module _ (parse_url : Text → Option Url) (first : ℕ → Channel)
    (plain : PlainIds parse_url first) where
  process_channel-Inv :
      (r : ℕ) (p p' : Processor)
      → process_channel parse_url r p ≡ some p'
      → Inv first p
      → Inv first p'
  unfolding process_channel
  process_channel-Inv r p p' e inv = elim (Bool-cases (p.store.memory r).removed) [
    | inl gone ↦ let same : p ≡ p' = ground arith in subst (Inv first) same inv
    | inr live ↦ elim (Option-cases (find_duplicate (p.store.memory r) p.channels_by_id)) [
      | inr (existing, dup) ↦
          subst (Inv first) (ground arith)
            (add_stream-Inv parse_url first plain existing r p inv dup)
      | inl new ↦ elim (Option-cases (proxied_channel parse_url (p.store.memory r))) [
        | inl failed ↦ absurd (ground arith)
        | inr (ch, done) ↦
            let keeps = proxied_channel_keeps parse_url (p.store.memory r) ch done (λ v l proxied.
              plain r v (sym (inv.ids r) ∙ l)
                (sym (ap (λ (pl : Playlist). pl.is_proxied) (inv.playlists r)) ∙ proxied)) in
            subst (Inv first) (ground arith) (
              add_channel-Inv parse_url first plain r ch p inv
                (duplicate_same (first r) (p.store.memory r) p.channels_by_id (sym (inv.ids r))
                  ∙ new)
                (keeps.0 ∙ inv.ids r) (keeps.1 ∙ inv.playlists r))
      ]
    ]
  ]

  process_channels-Inv :
      (rs : List ℕ) (p p' : Processor)
      → process_channels parse_url rs p ≡ some p'
      → Inv first p
      → Inv first p'
  unfolding process_channels
  process_channels-Inv [] p p' e inv = subst (Inv first) (ground arith) inv
  process_channels-Inv (r ∷ rs) p p' e inv = elim (Option-cases (process_channel parse_url r p)) [
    | inl failed ↦ absurd (ground arith)
    | inr (p₁, done) ↦
        process_channels-Inv rs p₁ p' (ground arith) (process_channel-Inv r p p₁ done inv)
  ]

proxied_uri_id : (ch : Channel) (ss : List Stream) → id_of (proxied_uri ch ss) ≡ id_of ch
unfolding proxied_uri set_uri get_attr
proxied_uri_id ch [] = refl
proxied_uri_id ch (s ∷ ss) = ground arith

-- Setting the URIs leaves the ids.
update_uris_id :
    (streams : RefMap (List Stream)) (st : Store) (q : ℕ)
    → id_of ((update_uris streams st).memory q) ≡ id_of (st.memory q)
unfolding update_uris
update_uris_id [] st q = refl
update_uris_id ((r, ss) ∷ streams) st q =
    update_uris_id streams (modify r (λ ch. proxied_uri ch ss) st) q
    ∙ unfold modify update in ground (arith, proxied_uri_id (st.memory r) ss)

any-keep :
    (test : ℕ → Bool) (q : ℕ) (rs : List ℕ)
    → any (λ r. r == q) (keep test rs) ≡ true
    → test q ≡ true
any-keep test q [] h = absurd (cc h)
any-keep test q (r ∷ rs) h = elim (Bool-cases (test r)) [
  | inr e ↦ any-keep test q rs (rw e at h)
  | inl e ↦ elim (Bool-cases (r == q)) [
    | inl hit ↦ rw (← (==_iff r q).0 hit) e
    | inr miss ↦ any-keep test q rs (ground arith)
  ]
]

-- A channel of the result is found under its id.
result_owner :
    (first : ℕ → Channel) (p : Processor)
    → Inv first p
    → (x : ℕ) (id : Text) → any (λ y. y == x) (collect_results p.channel_streams p.store) ≡ true
    → id_of ((update_uris p.channel_streams p.store).memory x) ≡ some id
    → lookup id p.channels_by_id ≡ some x
unfolding collect_results
result_owner first p inv x id found e =
    inv.owner x id (any-keep (has_streams p.channel_streams) x p.store.channels found)
      (sym (ap non_empty (inv.ids x)) ∙ sym (update_uris_id p.channel_streams p.store x) ∙ e)

-- In the result of Process no two channels share a tvg-id that is not empty, provided that the
-- tvg-ids of the channels of proxied playlists are no URLs with a host before it.
pub group_streams_unique :
    (parse_url : Text → Option Url) (st st' : Store) (rs : List ℕ) (q r : ℕ) (id : Text)
    → PlainIds parse_url st.memory
    → group_streams parse_url st ≡ ok (rs, st')
    → any (λ x. x == q) rs ≡ true
    → any (λ x. x == r) rs ≡ true
    → id_of (st'.memory q) ≡ some id
    → id_of (st'.memory r) ≡ some id
    → q ≡ r
unfolding group_streams
group_streams_unique parse_url st st' rs q r id plain e in_q in_r id_q id_r =
    elim (Option-cases (process_channels parse_url st.channels (new_processor st))) [
      | inl failed ↦ absurd (cc (rw (failed, group_streams) at e))
      | inr (p, done) ↦
          let inv =
            process_channels-Inv parse_url st.memory plain st.channels (new_processor st) p done
              (new_processor-Inv st) in
          let shape : ok
                (collect_results p.channel_streams p.store, update_uris p.channel_streams p.store)
              ≡ ok (rs, st') =
            rw (done, group_streams) at e in
          let rs_same : collect_results p.channel_streams p.store ≡ rs = ground arith in
          let st_same : update_uris p.channel_streams p.store ≡ st' = ground arith in
          let found_q = result_owner st.memory p inv q id (rw rs_same in_q) (rw st_same id_q) in
          let found_r = result_owner st.memory p inv r id (rw rs_same in_r) (rw st_same id_r) in
          let same : some q ≡ some r = sym found_q ∙ found_r in ground arith
    ]
