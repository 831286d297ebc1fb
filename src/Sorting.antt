-- ===== src/Sorting.antt =====
-- internal/listing/m3u8/rules/playlist/sort.go: the sort rule. `sorter` is sort.Slice. The map of
-- groups is the list of its entries in the order of their first channel.
pub mod Order
pub mod Priority
pub mod Rearranged
pub mod Keyed
pub mod Apart
pub mod Grouped
pub mod Tests
use majmun.Base.{
  ℕ, zero, suc, ◌-◌, Bool, true, false, not, ◌&&◌, Option, none, some, List, [], ◌∷◌, ◌++◌, map,
}
use majmun.Base.Tests.{ltb, leb, ◌==◌, if◌then◌else◌}
use majmun.Base.Lists.{length, get_or}
use majmun.Base.Text.{Text, text_eq}
use majmun.Base.Sorter.{Sorter}
use majmun.Channel.{Channel, Selector, get_field_value}
use majmun.Store.{Store, replace}
use majmun.Rules.Config.{Regexp, Condition}
use majmun.Natural.{natural_less}
use majmun.Matcher.{Groups, append_to}

-- A missing order is the empty one: the code treats them alike.
pub record GroupByRule : Type 0 where
  pub selector : Option Selector
  pub order : List Regexp

pub record Sort : Type 0 where
  pub selector : Option Selector
  pub order : List Regexp
  pub group_by : Option GroupByRule
  pub condition : Option Condition

-- The place of the first pattern that is not empty and matches, counted from `i`.
unfoldable pub first_matching : Text → List Regexp → ℕ → Option ℕ
first_matching v [] i = none
first_matching v (p ∷ ps) i =
    let rest = first_matching v ps (suc i) in
    if not (text_eq p.source []) && p.match_string v then some i else rest

-- The place of the first empty pattern.
unfoldable pub first_empty : List Regexp → ℕ → Option ℕ
first_empty [] i = none
first_empty (p ∷ ps) i =
    let rest = first_empty ps (suc i) in if text_eq p.source [] then some i else rest

-- The two loops over an order that getGroupPriority and getChannelPriority share.
unfoldable pub order_priority : List Regexp → Text → ℕ
unfolding first_matching first_empty
order_priority order v = elim (first_matching v order 0) [
  | some i ↦ i
  | none ↦ get_or (first_empty order 0) (length order)
]

group_priority_of : Option GroupByRule → Text → ℕ
unfolding order_priority
group_priority_of none group_value = 0
group_priority_of (some g) group_value = order_priority g.order group_value

unfoldable pub get_group_priority : Sort → Text → ℕ
unfolding group_priority_of
get_group_priority rule group_value = group_priority_of rule.group_by group_value

field_priority : List Regexp → Option Text → ℕ
unfolding order_priority
field_priority order none = length order
field_priority order (some v) = order_priority order v

unfoldable pub get_channel_priority : Sort → Channel → ℕ
unfolding field_priority
get_channel_priority rule ch = field_priority rule.order (get_field_value rule.selector ch)

group_key_of : Option GroupByRule → Channel → Text
group_key_of none ch = []
group_key_of (some g) ch = elim g.selector [
  | none ↦ []
  | some s ↦ get_or (get_field_value (some s) ch) []
]

unfoldable pub get_group_key : Sort → Channel → Text
unfolding group_key_of
get_group_key rule ch = group_key_of rule.group_by ch

field_less : Option Text → Option Text → Bool
field_less none w = false
field_less (some v) none = true
field_less (some v) (some w) = natural_less v w

-- The comparison of two channels: by priority, then by the field; a missing field comes last.
unfoldable pub channel_less : Sort → Channel → Channel → Bool
unfolding field_less
channel_less rule a b =
    let p = get_channel_priority rule a in
    let q = get_channel_priority rule b in
    if not (p == q)
    then ltb p q
    else field_less (get_field_value rule.selector a) (get_field_value rule.selector b)

unfoldable pub group_less : Sort → Text → Text → Bool
group_less rule a b =
    let p = get_group_priority rule a in
    let q = get_group_priority rule b in if not (p == q) then ltb p q else natural_less a b

unfoldable pub groups_of : Sort → (ℕ → Channel) → List ℕ → Groups → Groups
groups_of rule memory [] groups = groups
groups_of rule memory (r ∷ rs) groups =
    groups_of rule memory rs (append_to (get_group_key rule (memory r)) r groups)

module _ (sorter : Sorter) (rule : Sort) where
  unfoldable pub sort_channels : (ℕ → Channel) → List ℕ → List ℕ
  sort_channels memory rs = sorter.sort ℕ (λ i j. channel_less rule (memory i) (memory j)) rs

  unfoldable pub sort_groups : Groups → Groups
  sort_groups groups = sorter.sort (Text × List ℕ) (λ g h. group_less rule g.0 h.0) groups

  -- The groups in order, each sorted.
  unfoldable pub concat_groups : (ℕ → Channel) → Groups → List ℕ
  unfolding sort_channels
  concat_groups memory [] = []
  concat_groups memory ((k, rs) ∷ groups) = sort_channels memory rs ++ concat_groups memory groups

  unfoldable pub sorted_channels : (ℕ → Channel) → List ℕ → List ℕ
  unfolding concat_groups sort_groups groups_of
  sorted_channels memory rs = elim rule.group_by [
    | none ↦ sort_channels memory rs
    | some g ↦ concat_groups memory (sort_groups (groups_of rule memory rs []))
  ]

  unfoldable pub apply : Store → Store
  unfolding sorted_channels replace
  apply st =
      if leb (length st.channels) 1 then st else replace (sorted_channels st.memory st.channels) st
