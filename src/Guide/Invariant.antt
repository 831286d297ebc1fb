-- ===== src/Guide/Invariant.antt =====
-- What the streamer of guides keeps true of what it has written.
use majmun.Base.{◌≡◌, refl, inl, inr, Bool, true, false, Option, none, some, List, [], ◌∷◌}
use majmun.Base.Tests.{Bool-cases, Option-cases}
use majmun.Base.Lists.{any, All, get_or}
use majmun.Base.Text.{Text, text_eq}
use majmun.Base.Maps.{Map, lookup, insert}
use majmun.Guide.{
  GuideChannel, Programme, Streamer, renamed, try_candidates, channel_names_match, programme_key,
}
use majmun.Guide.Loops.{Item, channel, programme, other, Writer, Failure}

abbrev pub occurs : Text → List Text → Bool
occurs j ids = any (λ i. text_eq i j) ids

abbrev pub Once : List Text → Type 0
Once [] = Unit
Once (x ∷ xs) = (occurs x xs ≡ false) × Once xs

abbrev pub ids_of : List Item → List Text
ids_of [] = []
ids_of (channel ch ∷ items) = ch.id ∷ ids_of items
ids_of (programme p ∷ items) = ids_of items
ids_of (other ∷ items) = ids_of items

abbrev pub programmes_of : List Item → List Programme
programmes_of [] = []
programmes_of (channel ch ∷ items) = programmes_of items
programmes_of (programme p ∷ items) = p ∷ programmes_of items
programmes_of (other ∷ items) = programmes_of items

abbrev pub keys_of : List Programme → List Text
keys_of [] = []
keys_of (p ∷ ps) = programme_key p ∷ keys_of ps

abbrev pub is_some {ℓ} : {A : Type ℓ} → Option A → Bool
is_some none = false
is_some (some a) = true

-- A guide in which each channel and each programme is written once, each channel is known to the
-- playlist, and each programme has its channel. `names` are the names of the playlist's channels.
pub record IsGuide (names : Map Text) (output : List Item) : Type 0 where
  pub ids_once : Once (ids_of output)
  pub ids_known : (j : Text) → occurs j (ids_of output) ≡ true → is_some (lookup j names) ≡ true
  pub keys_once : Once (keys_of (programmes_of output))
  pub has_channel :
      All (λ (p : Programme). occurs p.channel (ids_of output) ≡ true) (programmes_of output)

-- The maps of the streamer say what is written.
pub record Inv (names : Map Text) (w : Writer) : Type 0 where
  pub guide : IsGuide names w.output
  pub names_same : w.streamer.channel_id_to_name ≡ names
  pub ids_added :
      (j : Text) → occurs j (ids_of w.output) ≡ is_some (lookup j w.streamer.added_channels)
  pub mapped :
      (k j : Text)
      → lookup k w.streamer.channel_id_mapping ≡ some j
      → occurs j (ids_of w.output) ≡ true
  pub keys_added :
      (j : Text)
      → occurs j (keys_of (programmes_of w.output))
        ≡ get_or (lookup j w.streamer.added_programmes) false

-- After a failure the maps may be ahead of what is written, which is a guide still.
abbrev pub Kept : Map Text → Option Failure × Writer → Type 0
Kept names r = (r.0 ≡ none → Inv names r.1) × IsGuide names r.1.output

-- The outcomes of the loop over the candidate ids.
pub data Tried (key : Text) (vs : List Text) (ch : GuideChannel) (s : Streamer)
    : Bool × GuideChannel × Streamer → Type 0 where
  refused : Tried key vs ch s (false, ch, s)
  known_name :
      (id : Text)
      → is_some (lookup id s.added_channels) ≡ true
      → Tried key vs ch s
          (false, ch, record s { channel_id_mapping = insert key id s.channel_id_mapping })
  added :
      (id name : Text)
      → lookup id s.channel_id_to_name ≡ some name
      → lookup id s.added_channels ≡ none
      → Tried key vs ch s (
        true,
        renamed id name ch,
        record s {
          channel_id_mapping = insert key id s.channel_id_mapping;
          added_channels = insert id vs s.added_channels;
        },
      )

pub try_candidates-Tried :
    (key : Text) (vs ids : List Text) (ch : GuideChannel) (s : Streamer)
    → Tried key vs ch s (try_candidates key vs ids ch s)
unfolding try_candidates
try_candidates-Tried key vs [] ch s = refused
try_candidates-Tried key vs (id ∷ ids) ch s = elim (Option-cases (lookup id s.channel_id_to_name)) [
  | inl e ↦ rw (e, try_candidates) (try_candidates-Tried key vs ids ch s)
  | inr (name, e) ↦ elim (Option-cases (lookup id s.added_channels)) [
    | inl new ↦ rw (e, new, try_candidates) (added id name e new)
    | inr (existing, old) ↦ elim (Bool-cases (channel_names_match vs existing)) [
      | inl same ↦ rw (e, old, same, try_candidates) (known_name id (rw old refl))
      | inr differ ↦ rw (e, old, differ, try_candidates) refused
    ]
  ]
]
