-- ===== src/Config/Rules.antt =====
-- The validation of rules and of what they refer to: Validate in internal/config/rules and of the
-- conditions and selectors in internal/config/common, and the reference checks of config.go. The field
-- Validate of a rule is that of the first part that is set; a selector or a template that the model's
-- rules always have needs no check.
use majmun.Base.{Bool, true, false, not, ◌&&◌, ◌||◌, Option, none, some, List, [], ◌∷◌}
use majmun.Base.Lists.{get_or, length}
use majmun.Base.Maps.{Map, lookup}
use majmun.Base.Result.{ok, err, Check, guard, each, ◌>>◌}
use majmun.Base.Tests.{leb}
use majmun.Base.Text.{Text, is_filled}
use majmun.Channel.{Selector, SelectorType, attr, tag}
use majmun.Duplicates.{RemoveDuplicatesRule, RemoveFinalValue, MergeDuplicatesRule, MergeFinalValue}
use majmun.PlaylistRules.{PlaylistRule}
use majmun.Rules.Config.{
  Condition, condition, Conditions, nil, cons, Rule, SetFieldRule, RemoveFieldRule, is_nil,
  no_conditions, no_selector,
}
use majmun.Settings.Valid.{
  Invalid, selector_value_required, condition_required, too_few_patterns, only_clients,
  final_selector_required, unknown_client, unknown_playlist,
}
use majmun.Sorting.{Sort}

-- map[string]bool
abbrev pub Names : Type 0
Names = Map Bool

unfoldable pub has : Names → Text → Bool
unfolding lookup
has names n = get_or (lookup n names) false

needs_value : SelectorType → Bool
needs_value attr = true
needs_value tag = true
needs_value _ = false

unfoldable pub validate_selector : Selector → Check Invalid
unfolding needs_value
validate_selector s = guard (not (needs_value s.type) || is_filled s.value) selector_value_required

-- A check of what is behind a pointer, if there is something.
abbrev pub check_set {ℓ} : {A : Type ℓ} → (A → Check Invalid) → Option A → Check Invalid
check_set f none = ok tt
check_set f (some a) = f a

-- The condition of a part, if both are set.
abbrev pub condition_of {ℓ} : {A : Type ℓ} → (A → Option Condition) → Option A → Option Condition
condition_of f none = none
condition_of f (some a) = f a

unfoldable mutual
  unfolding validate_selector

  pub validate_condition : Condition → Check Invalid
  validate_condition (condition selector patterns clients playlists all_of any_of invert) =
      check_set validate_selector selector
      >> (validate_conditions all_of >> validate_conditions any_of)

  pub validate_conditions : Conditions → Check Invalid
  validate_conditions nil = ok tt
  validate_conditions (cons c cs) = validate_condition c >> validate_conditions cs

unfoldable pub validate_set_field : SetFieldRule → Check Invalid
validate_set_field r = do validate_selector r.selector; check_set validate_condition r.condition

unfoldable pub validate_remove_field : RemoveFieldRule → Check Invalid
validate_remove_field r = do validate_selector r.selector; check_set validate_condition r.condition

-- remove_channel and mark_hidden.
unfoldable pub validate_marking : Option Condition → Check Invalid
validate_marking none = err condition_required
validate_marking (some c) = validate_condition c

-- The first part that is set.
unfoldable pub validate_channel_rule : Rule → Check Invalid
unfolding validate_set_field validate_remove_field validate_marking
validate_channel_rule r = elim r.set_field [
  | some s ↦ validate_set_field s
  | none ↦ elim r.remove_field [
    | some s ↦ validate_remove_field s
    | none ↦ elim r.remove_channel [
      | some c ↦ validate_marking c
      | none ↦ elim r.mark_hidden [ some c ↦ validate_marking c | none ↦ ok tt ]
    ]
  ]
]

-- A condition of a playlist rule names nothing but clients.
clients_only : Condition → Check Invalid
clients_only (condition selector patterns clients playlists all_of any_of invert) =
    guard
      (no_selector selector
        && is_nil patterns
        && is_nil playlists
        && no_conditions all_of
        && no_conditions any_of)
      only_clients

store_condition : Condition → Check Invalid
unfolding clients_only
store_condition c = do validate_condition c; clients_only c

validate_merge_final : MergeFinalValue → Check Invalid
validate_merge_final v = validate_selector v.selector

unfoldable pub validate_merge_duplicates : MergeDuplicatesRule → Check Invalid
unfolding validate_merge_final store_condition
validate_merge_duplicates r = do
  check_set validate_selector r.selector
  guard (leb 1 (length r.patterns)) too_few_patterns
  check_set validate_merge_final r.final_value
  check_set store_condition r.condition

validate_remove_final : RemoveFinalValue → Check Invalid
validate_remove_final v = elim v.selector [
  | none ↦ err final_selector_required
  | some s ↦ validate_selector s
]

unfoldable pub validate_remove_duplicates : RemoveDuplicatesRule → Check Invalid
unfolding validate_remove_final store_condition
validate_remove_duplicates r = do
  check_set validate_selector r.selector
  guard (leb 2 (length r.patterns)) too_few_patterns
  check_set validate_remove_final r.final_value
  check_set store_condition r.condition

unfoldable pub validate_sort : Sort → Check Invalid
unfolding store_condition
validate_sort s = do check_set validate_selector s.selector; check_set store_condition s.condition

unfoldable pub validate_playlist_rule : PlaylistRule → Check Invalid
unfolding validate_merge_duplicates validate_remove_duplicates validate_sort
validate_playlist_rule r = elim r.remove_duplicates [
  | some s ↦ validate_remove_duplicates s
  | none ↦ elim r.merge_channels [
    | some s ↦ validate_merge_duplicates s
    | none ↦ elim r.sort_rule [ some s ↦ validate_sort s | none ↦ ok tt ]
  ]
]

module _ (client_names playlist_names : Names) where
  unfoldable mutual
    unfolding has each

    pub condition_references : Condition → Check Invalid
    condition_references (condition selector patterns clients playlists all_of any_of invert) =
        each (λ c. guard (has client_names c) unknown_client) clients
        >> (each (λ p. guard (has playlist_names p) unknown_playlist) playlists
            >> (conditions_references all_of >> conditions_references any_of))

    pub conditions_references : Conditions → Check Invalid
    conditions_references nil = ok tt
    conditions_references (cons c cs) = condition_references c >> conditions_references cs

  -- The first condition of those that are set.
  unfoldable pub first_references : List (Option Condition) → Check Invalid
  first_references [] = ok tt
  first_references (none ∷ cs) = first_references cs
  first_references (some c ∷ cs) = condition_references c

  unfoldable pub channel_rule_references : Rule → Check Invalid
  unfolding first_references
  channel_rule_references r = first_references (
      condition_of (λ s. s.condition) r.set_field
      ∷ condition_of (λ s. s.condition) r.remove_field
      ∷ condition_of (λ c. c) r.remove_channel
      ∷ condition_of (λ c. c) r.mark_hidden
      ∷ [])

  unfoldable pub playlist_rule_references : PlaylistRule → Check Invalid
  unfolding first_references
  playlist_rule_references r = first_references (
      condition_of (λ s. s.condition) r.merge_channels
      ∷ condition_of (λ s. s.condition) r.remove_duplicates
      ∷ condition_of (λ s. s.condition) r.sort_rule
      ∷ [])

  unfoldable pub validate_channel_rules : List Rule → Check Invalid
  unfolding validate_channel_rule channel_rule_references each
  validate_channel_rules rules =
      each (λ r. validate_channel_rule r >> channel_rule_references r) rules

  unfoldable pub validate_playlist_rules : List PlaylistRule → Check Invalid
  unfolding validate_playlist_rule playlist_rule_references each
  validate_playlist_rules rules =
      each (λ r. validate_playlist_rule r >> playlist_rule_references r) rules
