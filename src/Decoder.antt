-- ===== src/Decoder.antt =====
-- internal/listing/streaming.go: a decoder with a buffer that a goroutine fills while the consumer is
-- busy elsewhere. The goroutine hands its batch over when it stops, and StopBuffer waits for it, so
-- one stretch of buffering is a step, `start_buffering n`, where the goroutine came to read `n`
-- items. What the source will still give is part of the state: `pending`, and then `stop` for good.
-- A source that could be read on past an error is not modelled.
pub mod Order
pub mod Tests
use majmun.Base.{ℕ, zero, suc, Option, none, some, List, [], ◌∷◌, ◌++◌}
use majmun.Base.Tests.{leb, if◌then◌else◌}
use majmun.Base.Result.{Result, ok, err}

pub data Stop : Type 0 where
  eof failed : Stop

pub record Source {ℓ} (Item : Type ℓ) : Type ℓ where
  pub pending : List Item
  pub stop : Stop

-- `source` is the open decoder, `init_func` what the first init brings.
pub record BaseDecoder {ℓ} (Item : Type ℓ) : Type ℓ where
  pub source : Option (Source Item)
  pub error : Option Stop
  pub item_buffer : List Item
  pub init_func : Option (Source Item)

abbrev pub buffer_batch_size : ℕ
buffer_batch_size = 1000

-- The goroutine sets the error at its end, or leaves it.
unfoldable pub or_old : Option Stop → Option Stop → Option Stop
or_old none old = old
or_old (some e) old = some e

module _ {ℓ} {Item : Type ℓ} where
  unfoldable pub new_lazy_base_decoder : Option (Source Item) → BaseDecoder Item
  new_lazy_base_decoder init = record {
    source = none;
    error = none;
    item_buffer = [];
    init_func = init;
  }

  unfoldable pub add_to_buffer : List Item → BaseDecoder Item → BaseDecoder Item
  add_to_buffer items d = record d { item_buffer = d.item_buffer ++ items }

  -- A call of Decode.
  unfoldable pub decode : Source Item → Result Stop Item × Source Item
  decode s = elim s.pending [ [] ↦ (err s.stop, s) | x ∷ xs ↦ (ok x, record s { pending = xs }) ]

  -- Without a buffer, an error or an open decoder the code would panic; `failed` stands for that.
  unfoldable pub next_item : BaseDecoder Item → Result Stop Item × BaseDecoder Item
  unfolding decode
  next_item d = elim d.item_buffer [
    | x ∷ xs ↦ (ok x, record d { item_buffer = xs })
    | [] ↦ elim d.error [
      | some e ↦ (err e, d)
      | none ↦ elim d.source [
        | none ↦ (err failed, d)
        | some s ↦ let (r, s') = decode s in (r, record d { source = some s' })
      ]
    ]
  ]

  -- The goroutine reads up to `n` items, and stops early at an error.
  unfoldable pub read_batch : ℕ → Source Item → List Item × (Source Item × Option Stop)
  unfolding decode
  read_batch zero s = ([], (s, none))
  read_batch (suc n) s =
      let (r, s') = decode s in
      let rest = read_batch n s' in
      elim r [ err e ↦ ([], (s', some e)) | ok x ↦ (x ∷ rest.0, rest.1) ]

  unfoldable pub buffer_from : ℕ → Source Item → BaseDecoder Item → BaseDecoder Item
  unfolding or_old add_to_buffer read_batch
  buffer_from n s d =
      let m = if leb n buffer_batch_size then n else buffer_batch_size in
      let (batch, (s', e)) = read_batch m s in
      add_to_buffer batch (record d { source = some s'; error = or_old e d.error })

  -- init, and the goroutine until it is stopped; the batch holds `buffer_batch_size` items at most.
  unfoldable pub start_buffering : ℕ → BaseDecoder Item → Option Stop × BaseDecoder Item
  unfolding buffer_from
  start_buffering n d = elim d.source [
    | some s ↦ (none, buffer_from n s d)
    | none ↦ elim d.init_func [
      | none ↦ (some failed, record d { error = some failed })
      | some s ↦ (none, buffer_from n s d)
    ]
  ]
