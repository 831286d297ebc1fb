-- ===== src/Decoder/Order.antt =====
-- The consumer of a buffered decoder sees the items of the source in their order.
use majmun.Base.{
  ℕ, zero, suc, ◌≡◌, refl, sym, ◌∙◌, ap, ◌⊎◌, inl, inr, Option, none, some, List, [], ◌∷◌, ◌++◌,
  arith,
}
use mathlib.Core.List.{append_assoc, append-nil}
use majmun.Base.Tests.{leb, if◌then◌else◌, Option-cases}
use majmun.Base.Lists.{List-cases}
use majmun.Base.Result.{ok, err}
use majmun.Decoder.{
  buffer_batch_size, Source, Stop, failed, BaseDecoder, add_to_buffer, decode, next_item,
  read_batch, buffer_from, start_buffering, or_old,
}

or_old-none : (e old : Option Stop) → e ≡ none → old ≡ none → or_old e old ≡ none
unfolding or_old
or_old-none none old h k = k
or_old-none (some e) old h k = absurd (cc h)

module _ {ℓ} {Item : Type ℓ} where
  -- What an opened or unopened source will still give.
  abbrev pub rest_of : Option (Source Item) → Option (Source Item) → List Item
  rest_of (some s) init = s.pending
  rest_of none (some s) = s.pending
  rest_of none none = []

  -- What the consumer has still to see.
  abbrev pub contents : BaseDecoder Item → List Item
  contents d = d.item_buffer ++ rest_of d.source d.init_func

  -- An error is met only at the end of the source.
  abbrev pub IsWell : BaseDecoder Item → Type ℓ
  IsWell d = (d.error ≡ none) ⊎ (rest_of d.source d.init_func ≡ [])

  -- The consumer takes the items `xs` in turn, between stretches of buffering.
  pub data Taken : BaseDecoder Item → List Item → BaseDecoder Item → Type ℓ where
    done : (d : BaseDecoder Item) → Taken d [] d
    buffered :
        (n : ℕ) (d d' : BaseDecoder Item) (xs : List Item)
        → Taken (start_buffering n d).1 xs d'
        → Taken d xs d'
    taken :
        (d d' : BaseDecoder Item) (x : Item) (xs : List Item)
        → (next_item d).0 ≡ ok x
        → Taken (next_item d).1 xs d'
        → Taken d (x ∷ xs) d'

  append-end : (xs ys : List Item) → xs ++ ys ≡ [] → ys ≡ []
  append-end [] ys e = e
  append-end (x ∷ xs) ys e = absurd (cc e)

  read_batch-append :
      (n : ℕ) (xs : List Item) (stop : Stop)
      → let r = read_batch n (record { pending = xs; stop = stop }) in
        (r.0 ++ r.1.0.pending ≡ xs) × ((r.1.1 ≡ none) ⊎ (r.1.0.pending ≡ []))
  unfolding read_batch decode
  read_batch-append zero xs stop = (refl, inl refl)
  read_batch-append (suc n) [] stop = (refl, inr refl)
  read_batch-append (suc n) (x ∷ xs) stop =
      let (same, well) = read_batch-append n xs stop in (ap (λ t. x ∷ t) same, well)

  buffer_from-contents :
      (n : ℕ) (s : Source Item) (d : BaseDecoder Item)
      → rest_of d.source d.init_func ≡ s.pending
      → IsWell d
      → (contents (buffer_from n s d) ≡ contents d) × IsWell (buffer_from n s d)
  unfolding buffer_from add_to_buffer
  buffer_from-contents n s d e well =
      let m = if leb n buffer_batch_size then n else buffer_batch_size in
      let (same, ended) = read_batch-append m s.pending s.stop in
      (
        append_assoc d.item_buffer _ _ ∙ ap (λ t. d.item_buffer ++ t) (same ∙ sym e),
        elim well [
          | inl no_error ↦ elim ended [
            | inl k ↦ inl (or_old-none _ d.error k no_error)
            | inr k ↦ inr k
          ]
          | inr empty ↦ inr (append-end _ _ (same ∙ sym e ∙ empty))
        ],
      )

  pub start_buffering-contents :
      (n : ℕ) (d : BaseDecoder Item)
      → IsWell d
      → (contents (start_buffering n d).1 ≡ contents d) × IsWell (start_buffering n d).1
  unfolding start_buffering
  start_buffering-contents n d well = elim (Option-cases d.source) [
    | inr (s, e) ↦
        let step : start_buffering n d ≡ (none, buffer_from n s d) = rw (e, start_buffering) refl in
        rw step (buffer_from-contents n s d (rw e refl) well)
    | inl e ↦ elim (Option-cases d.init_func) [
      | inr (s, k) ↦
          let step : start_buffering n d ≡ (none, buffer_from n s d) = ground arith in
          rw step (buffer_from-contents n s d (rw (e, k) refl) well)
      | inl k ↦
          let step : start_buffering n d ≡ (some failed, record d { error = some failed }) =
            ground arith in
          rw step (refl, inr (rw (e, k) refl))
    ]
  ]

  pub next_item-contents :
      (d : BaseDecoder Item) (x : Item)
      → (next_item d).0 ≡ ok x
      → IsWell d
      → (x ∷ contents (next_item d).1 ≡ contents d) × IsWell (next_item d).1
  unfolding next_item decode
  next_item-contents d x e well = elim (List-cases d.item_buffer) [
    | inr (y, ys, b) ↦ rw (b, next_item) (ground arith, well)
    | inl b ↦ elim (Option-cases d.error) [
      | inr (f, k) ↦ absurd (ground arith)
      | inl k ↦ elim (Option-cases d.source) [
        | inl o ↦ absurd (ground arith)
        | inr (s, o) ↦ elim (List-cases s.pending) [
          | inl q ↦ absurd (ground arith)
          | inr (y, ys, q) ↦ rw (b, k, o, q, next_item) (ground arith, inl k)
        ]
      ]
    ]
  ]

  pub next_item-keeps :
      (d : BaseDecoder Item) (e : Stop)
      → (next_item d).0 ≡ err e
      → IsWell d
      → IsWell (next_item d).1
  unfolding next_item decode
  next_item-keeps d e r well = elim (List-cases d.item_buffer) [
    | inr (y, ys, b) ↦ absurd (ground arith)
    | inl b ↦ elim (Option-cases d.error) [
      | inr (f, k) ↦ let same : (next_item d).1 ≡ d = ground arith in rw same well
      | inl k ↦
          let same : (next_item d).1.error ≡ none = elim (Option-cases d.source) [
            | inl o ↦ ground arith
            | inr (s, o) ↦ ground arith
          ] in
          inl same
    ]
  ]

  next_item-end :
      (d : BaseDecoder Item) (s : Source Item) (e : Stop)
      → d.source ≡ some s
      → (next_item d).0 ≡ err e
      → IsWell d
      → contents d ≡ []
  unfolding next_item decode
  next_item-end d s e open_ r well = elim (List-cases d.item_buffer) [
    | inr (y, ys, b) ↦ absurd (ground arith)
    | inl b ↦ elim well [
      | inr empty ↦ rw b empty
      | inl k ↦ elim (List-cases s.pending) [
        | inl q ↦ rw (b, open_) q
        | inr (y, ys, q) ↦ absurd (ground arith)
      ]
    ]
  ]

  Taken-contents :
      {d d' : BaseDecoder Item} {xs : List Item}
      → IsWell d
      → Taken d xs d'
      → (xs ++ contents d' ≡ contents d) × IsWell d'
  Taken-contents well (done d) = (refl, well)
  Taken-contents well (buffered n d d' xs run) =
      let (same, well') = start_buffering-contents n d well in
      let (all_, end_) = Taken-contents well' run in (all_ ∙ same, end_)
  Taken-contents well (taken d d' x xs e run) =
      let (same, well') = next_item-contents d x e well in
      let (all_, end_) = Taken-contents well' run in (ap (λ t. x ∷ t) all_ ∙ same, end_)

  -- The items that a consumer takes from a decoder, however many the goroutine reads in between, are
  -- the first ones of what the buffer and the source hold, in that order, and the rest is still to
  -- come. Once an open decoder gives an error, they are all of them. This is for decoders whose error
  -- is unset or whose source is at its end, as every new decoder.
  pub Taken-in_order :
      (d d' : BaseDecoder Item) (xs : List Item)
      → IsWell d
      → Taken d xs d'
      → (xs ++ contents d' ≡ contents d)
        × ((s : Source Item) (e : Stop)
            → d'.source ≡ some s
            → (next_item d').0 ≡ err e
            → xs ≡ contents d)
  Taken-in_order d d' xs well run =
      let (same, well') = Taken-contents well run in
      (
        same,
        λ s e o k.
            sym (append-nil xs) ∙ ap (λ t. xs ++ t) (sym (next_item-end d' s e o k well')) ∙ same,
      )
