-- ===== src/Channel/Laws.antt =====
-- A field that a selector names: what is written is read back, and nothing else changes.
use majmun.Base.{◌≡◌, ◌≢◌, refl, ◌⊎◌, inl, inr, Option, some, arith}
use majmun.Base.Tests.{Option-cases}
use majmun.Base.Text.{Text, text_eq_refl}
use majmun.Base.Maps.{lookup-insert}
use majmun.Urlgen.Types.{Url}
use majmun.Channel.{
  Channel, Selector, SelectorType, name, url, attr, tag, unset, get_field_value, set_selected,
}

-- What GetFieldValue gives after the switch wrote `value`: the value, or the text of the URL that
-- the value parses to.
abbrev pub Written : (Text → Option Url) → Selector → Text → Channel → Type 0
Written parse_url s value c =
    (get_field_value (some s) c ≡ some value)
    ⊎ ((u : Url) × (parse_url value ≡ some u) × (get_field_value (some s) c ≡ some u.string))

-- Writing a field that a selector of a known type names and reading it back gives what was
-- written, and the playlist, the marks and the priority of the channel stay.
pub get_field_value-set_selected :
    (parse_url : Text → Option Url) (t : SelectorType) (key value : Text) (c c' : Channel)
    → t ≢ unset
    → set_selected parse_url (record { type = t; value = key }) value c ≡ some c'
    → Written parse_url (record { type = t; value = key }) value c'
      × (c'.playlist ≡ c.playlist)
      × (c'.hidden ≡ c.hidden)
      × (c'.removed ≡ c.removed)
      × (c'.priority ≡ c.priority)
unfolding set_selected get_field_value
get_field_value-set_selected parse_url name key value c c' h e =
    (inl (ground arith), ground arith, ground arith, ground arith, ground arith)
get_field_value-set_selected parse_url url key value c c' h e =
    elim (Option-cases (parse_url value)) [
      | inl none_parsed ↦ absurd (ground arith)
      | inr (u, p) ↦
          (inr (u, p, ground arith), ground arith, ground arith, ground arith, ground arith)
    ]
get_field_value-set_selected parse_url attr key value c c' h e = (
  inl (ground (arith, lookup-insert key key value c.track.attrs, text_eq_refl key)),
  ground arith,
  ground arith,
  ground arith,
  ground arith,
)
get_field_value-set_selected parse_url tag key value c c' h e = (
  inl (ground (arith, lookup-insert key key value c.track.tags, text_eq_refl key)),
  ground arith,
  ground arith,
  ground arith,
  ground arith,
)
get_field_value-set_selected parse_url unset key value c c' h e = absurd (h refl)

-- The switch keeps the marks of the channel, of every selector.
pub set_selected_keeps :
    (parse_url : Text → Option Url) (s : Selector) (value : Text) (c c' : Channel)
    → set_selected parse_url s value c ≡ some c'
    → (c'.playlist ≡ c.playlist)
      × (c'.hidden ≡ c.hidden)
      × (c'.removed ≡ c.removed)
      × (c'.priority ≡ c.priority)
unfolding set_selected
set_selected_keeps parse_url s value c c' e =
    (ground arith, ground arith, ground arith, ground arith)
