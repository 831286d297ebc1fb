-- ===== src/Matcher.antt =====
-- internal/listing/m3u8/rules/playlist/pattern_matcher/pattern_matcher.go: channels that have one
-- name up to the patterns of a rule, and the priorities that the patterns give them.
-- A map of groups is the list of its entries in the order of their first channel. The loop of
-- computePriorities over patterns and channels is written channel by channel.
pub mod Priorities
pub mod Tests
use majmun.Base.{
  ℕ, zero, suc, ◌-◌, Bool, true, false, not, ◌&&◌, ◌||◌, Option, none, some, List, [], ◌∷◌, ◌++◌,
  map,
}
use majmun.Base.Tests.{ltb, ◌==◌, if◌then◌else◌}
use majmun.Base.Lists.{length, get_or, any, keep}
use majmun.Base.Text.{Text, codes, text_eq}
use majmun.Base.Words.{fields, join}
use majmun.Base.Maps.{Map, lookup, insert}
use majmun.Base.Sorter.{Sorter}
use majmun.Channel.{Channel, Selector, get_field_value, set_priority}
use majmun.Store.{Store, modify}
use majmun.Rules.Config.{Regexp}

abbrev pub Groups : Type 0
Groups = Map (List ℕ)

unfoldable pub erase_all : List Regexp → Text → Text
erase_all [] s = s
erase_all (p ∷ ps) s = erase_all ps (p.erase s)

unfoldable pub base_name_of : List Regexp → Option Text → Text
unfolding erase_all
base_name_of patterns none = []
base_name_of patterns (some []) = []
base_name_of [] (some (c ∷ s)) = c ∷ s
base_name_of (p ∷ ps) (some (c ∷ s)) = join (codes " ") (fields (erase_all (p ∷ ps) (c ∷ s)))

unfoldable pub extract_base_name : Option Selector → List Regexp → Channel → Text
unfolding base_name_of
extract_base_name selector patterns ch = base_name_of patterns (get_field_value selector ch)

unfoldable pub append_to : Text → ℕ → Groups → Groups
append_to k r groups = insert k (get_or (lookup k groups) [] ++ r ∷ []) groups

module _ (selector : Option Selector) (patterns : List Regexp) where
  unfoldable pub all_groups : (ℕ → Channel) → List ℕ → Groups → Groups
  unfolding extract_base_name append_to
  all_groups memory [] groups = groups
  all_groups memory (r ∷ rs) groups =
      all_groups memory rs (append_to (extract_base_name selector patterns (memory r)) r groups)

  unfoldable pub is_modified : Text → Option Text → Bool
  is_modified base_name none = false
  is_modified base_name (some v) = not (text_eq base_name v)

  -- More than one channel, and one whose field is not the base name itself.
  unfoldable pub is_group : (ℕ → Channel) → Text × List ℕ → Bool
  unfolding is_modified
  is_group memory (base_name, rs) =
      any (λ r. is_modified base_name (get_field_value selector (memory r))) rs && ltb 1 (length rs)

-- The priority of the last empty pattern, 0 if there is none. The first of n patterns has priority n.
unfoldable pub empty_prio : ℕ → List Regexp → ℕ
empty_prio found [] = found
empty_prio found (p ∷ ps) = empty_prio (if text_eq p.source [] then suc (length ps) else found) ps

-- The priorities of the patterns that match a value.
unfoldable pub matching_prios : Text → List Regexp → List ℕ
matching_prios v [] = []
matching_prios v (p ∷ ps) =
    let rest = matching_prios v ps in if p.match_string v then suc (length ps) ∷ rest else rest

-- A value that is missing or empty is passed over.
unfoldable pub channel_prios : Option Text → List Regexp → List ℕ
unfolding matching_prios
channel_prios none patterns = []
channel_prios (some []) patterns = []
channel_prios (some (c ∷ s)) patterns = matching_prios (c ∷ s) patterns

-- The greatest priority that is not that of the empty pattern; `none` is -1.
unfoldable pub max_non_empty : ℕ → Option ℕ → List ℕ → Option ℕ
max_non_empty empty found [] = found
max_non_empty empty found (p ∷ ps) =
    max_non_empty empty
      (if not (p == empty) && (elim found [ none ↦ true | some m ↦ ltb m p ])
        then some p
        else found)
      ps

-- The priority that a channel with these matches is given; `none` leaves it as it is.
unfoldable pub assigned : ℕ → List ℕ → Option ℕ
unfolding max_non_empty
assigned empty [] = none
assigned empty (p ∷ ps) = some (get_or (max_non_empty empty none (p ∷ ps)) empty)

unfoldable pub new_priority : Option Selector → List Regexp → Channel → Option ℕ
unfolding empty_prio channel_prios assigned
new_priority selector patterns ch =
    assigned (empty_prio 0 patterns) (channel_prios (get_field_value selector ch) patterns)

unfoldable pub prioritised : Option Selector → List Regexp → Channel → Channel
unfolding new_priority set_priority
prioritised selector patterns ch = elim (new_priority selector patterns ch) [
  | none ↦ ch
  | some p ↦ set_priority p ch
]

module _ (sorter : Sorter) (selector : Option Selector) (patterns : List Regexp) where
  -- computePriorities and setPriorities; without patterns nothing matches.
  unfoldable pub match_group : List ℕ → Store → Store
  unfolding prioritised
  match_group [] st = st
  match_group (r ∷ rs) st = match_group rs (modify r (prioritised selector patterns) st)

  unfoldable pub by_priority : (ℕ → Channel) → ℕ → ℕ → Bool
  by_priority memory i j = ltb (memory j).priority (memory i).priority

  unfoldable pub sort_group : List ℕ → Store → List ℕ
  unfolding by_priority
  sort_group rs st = sorter.sort ℕ (by_priority st.memory) rs

  unfoldable pub match_groups : Groups → Store → Groups × Store
  unfolding match_group sort_group
  match_groups [] st = ([], st)
  match_groups ((k, rs) ∷ groups) st =
      let st' = match_group rs st in
      let sorted = sort_group rs st' in
      let (rest, st'') = match_groups groups st' in ((k, sorted) ∷ rest, st'')

  unfoldable pub group_channels : Store → Groups × Store
  unfolding all_groups is_group match_groups
  group_channels st =
      match_groups
        (keep (is_group selector patterns st.memory)
          (all_groups selector patterns st.memory st.channels []))
        st
