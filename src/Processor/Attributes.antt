-- ===== src/Processor/Attributes.antt =====
-- What proxying the attributes of a channel leaves alone.
use majmun.Base.{
  ℕ, ◌≡◌, ◌≢◌, refl, sym, ◌∙◌, ap, ◌⊎◌, inl, inr, true, false, Option, none, some, [], ◌∷◌, arith,
}
use majmun.Base.Tests.{if◌then◌else◌, Bool-cases, Option-cases}
use majmun.Base.Text.{Text, text_eq, text_eq_iff, text_eq_refl}
use majmun.Base.Maps.{Map, lookup, lookup-insert}
use majmun.Urlgen.Types.{Url}
use majmun.Channel.{Channel, attr_tvg_id, get_attr}
use majmun.Store.{non_empty}
use majmun.Processor.{
  track_channel, is_file_url, proxied_value, proxy_attrs, proxy_channel_attributes, proxied_channel,
  provider_info,
}

-- The tvg-id by which a channel is tracked.
abbrev pub id_of : Channel → Option Text
id_of ch = non_empty (get_attr ch attr_tvg_id)

track_lookup :
    (r : ℕ) (ch : Channel) (by_id : Map ℕ) (id : Text)
    → lookup id (track_channel r ch by_id) ≡ elim (id_of ch) [
      | none ↦ lookup id by_id
      | some i ↦ if text_eq i id then some r else lookup id by_id
    ]
unfolding track_channel
track_lookup r ch by_id id = elim (Option-cases (id_of ch)) [
  | inl e ↦ rw (e, track_channel)
  | inr (i, e) ↦ rw (e, track_channel) (lookup-insert i id r by_id)
]

module _ (r : ℕ) (ch : Channel) (by_id : Map ℕ) (id : Text) where
  -- A tracked channel is found under its id.
  pub track_hit : id_of ch ≡ some id → lookup id (track_channel r ch by_id) ≡ some r
  track_hit e = rw (track_lookup r ch by_id id, e, text_eq_refl id)

  -- What is found after tracking is the channel under its id, or was found before.
  pub track_cases :
      (q : ℕ)
      → lookup id (track_channel r ch by_id) ≡ some q
      → ((q ≡ r) × (id_of ch ≡ some id)) ⊎ (lookup id by_id ≡ some q)
  track_cases q h = elim (Option-cases (id_of ch)) [
    | inl e ↦ inr (rw (track_lookup r ch by_id id, e) at h)
    | inr (i, e) ↦ elim (Bool-cases (text_eq i id)) [
      | inl k ↦
          let found : some r ≡ some q = rw (track_lookup r ch by_id id, e, k) at h in
          inl (ground arith, rw e (ap {B = Option Text} some ((text_eq_iff i id).0 k)))
      | inr k ↦ inr (rw (track_lookup r ch by_id id, e, k) at h)
    ]
  ]

  -- Tracking changes what is found under the channel's own id only.
  pub track_keeps :
      (q : ℕ)
      → lookup id by_id ≡ some q
      → id_of ch ≢ some id
      → lookup id (track_channel r ch by_id) ≡ some q
  track_keeps q h ne = elim (Option-cases (id_of ch)) [
    | inl e ↦ rw (track_lookup r ch by_id id, e) h
    | inr (i, e) ↦ elim (Bool-cases (text_eq i id)) [
      | inl k ↦ absurd (ne (rw e (ap {B = Option Text} some ((text_eq_iff i id).0 k))))
      | inr k ↦ rw (track_lookup r ch by_id id, e, k) h
    ]
  ]

module _ (parse_url : Text → Option Url) where
  proxied_plain :
      (file_url : Text → Option Url) (v : Text)
      → is_file_url parse_url v ≡ false
      → proxied_value parse_url file_url v ≡ some v
  unfolding proxied_value
  proxied_plain file_url v h = rw h

  lookup-proxy_attrs :
      (file_url : Text → Option Url) (key : Text) (attrs attrs' : Map Text)
      → proxy_attrs parse_url file_url attrs ≡ some attrs'
      → ((v : Text) → lookup key attrs ≡ some v → is_file_url parse_url v ≡ false)
      → lookup key attrs' ≡ lookup key attrs
  unfolding proxy_attrs lookup
  lookup-proxy_attrs file_url key [] attrs' e h = ground arith
  lookup-proxy_attrs file_url key ((k, v) ∷ attrs) attrs' e h =
      elim (Option-cases (proxied_value parse_url file_url v)) [
        | inl p ↦ absurd (ground arith)
        | inr (w, p) ↦ elim (Option-cases (proxy_attrs parse_url file_url attrs)) [
          | inl q ↦ absurd (ground arith)
          | inr (m, q) ↦
              let shape : attrs' ≡ (k, w) ∷ m = ground arith in
              elim (Bool-cases (text_eq k key)) [
                | inl hit ↦ rw (shape, hit) (sym p ∙ proxied_plain file_url v (h v (rw hit refl)))
                | inr miss ↦
                    rw (shape, miss)
                      (lookup-proxy_attrs file_url key attrs m q (λ u l. h u (rw miss l)))
              ]
        ]
      ]

  -- Nothing of a channel that the processor reads to find duplicates changes.
  pub proxied_channel_keeps :
      (ch ch' : Channel)
      → proxied_channel parse_url ch ≡ some ch'
      → ((v : Text)
          → get_attr ch attr_tvg_id ≡ some v
          → ch.playlist.is_proxied ≡ true
          → is_file_url parse_url v ≡ false)
      → (get_attr ch' attr_tvg_id ≡ get_attr ch attr_tvg_id) × (ch'.playlist ≡ ch.playlist)
  unfolding proxied_channel proxy_channel_attributes get_attr
  proxied_channel_keeps ch ch' e h = elim (Bool-cases ch.playlist.is_proxied) [
    | inr plain ↦ (ground arith, ground arith)
    | inl proxied ↦
        elim (Option-cases
          (proxy_attrs parse_url (ch.playlist.file_url (provider_info ch)) ch.track.attrs)) [
            | inl q ↦ absurd (ground arith)
            | inr (m, q) ↦
                let keep =
                  lookup-proxy_attrs (ch.playlist.file_url (provider_info ch)) attr_tvg_id
                    ch.track.attrs m q (λ v l. h v l proxied) in
                (ground (arith, keep), ground arith)
          ]
  ]
