-- ===== src/Rules/Conditions.antt =====
-- matchesCondition and its helpers of internal/listing/m3u8/rules/channel/processor.go, and
-- evaluateStoreCondition of internal/listing/m3u8/rules/playlist/processor.go.
pub mod Laws
use majmun.Base.{ℕ, Bool, true, false, not, ◌&&◌, ◌||◌, Option, none, some, List, [], ◌∷◌}
use majmun.Base.Tests.{if◌then◌else◌}
use majmun.Base.Text.{Text, contains}
use majmun.Channel.{Channel, Selector, get_field_value}
use majmun.Rules.Config.{
  Regexp, Condition, Conditions, condition, nil, cons, is_nil, is_empty, no_conditions, no_selector,
}

unfoldable pub matches_regexps : Text → List Regexp → Bool
matches_regexps value [] = false
matches_regexps value (re ∷ res) = if re.match_string value then true else matches_regexps value res

field_matches : Option Text → List Regexp → Bool
unfolding matches_regexps
field_matches none patterns = false
field_matches (some value) patterns = matches_regexps value patterns

unfoldable pub evaluate_field :
    Text → Channel → Option Selector → List Regexp → List Text → List Text → Bool
unfolding field_matches is_nil no_selector
evaluate_field client ch selector patterns clients playlists =
    if no_selector selector && is_nil patterns && is_nil clients && is_nil playlists
    then true
    else if not (is_nil patterns) && not (field_matches (get_field_value selector ch) patterns)
    then false
    else if not (is_nil clients) && not (contains clients client)
    then false
    else if not (is_nil playlists) && not (contains playlists ch.playlist.name)
    then false
    else true

-- The branches of matchesCondition on the tests that it makes: the channel is removed, the condition
-- is empty, it has no `and`, it has no `or`, it is inverted, and how its parts come out.
unfoldable pub combine : Bool → Bool → Bool → Bool → Bool → Bool → Bool → Bool → Bool
combine removed empty all_empty any_empty invert field every some_one =
    let result =
      if not all_empty
      then field && every
      else if not any_empty
      then field && some_one
      else field in
    if removed then false else if empty then true else if invert then not result else result

unfoldable mutual
  pub matches_condition : Text → Channel → Condition → Bool
  matches_condition client ch (condition selector patterns clients playlists all_of any_of invert) =
      combine ch.removed
        (is_empty (condition selector patterns clients playlists all_of any_of invert))
        (no_conditions all_of) (no_conditions any_of) invert
        (evaluate_field client ch selector patterns clients playlists)
        (evaluate_and client ch all_of) (evaluate_or client ch any_of)

  pub evaluate_and : Text → Channel → Conditions → Bool
  evaluate_and client ch nil = true
  evaluate_and client ch (cons c cs) =
      if not (matches_condition client ch c) then false else evaluate_and client ch cs

  pub evaluate_or : Text → Channel → Conditions → Bool
  evaluate_or client ch nil = false
  evaluate_or client ch (cons c cs) =
      if matches_condition client ch c then true else evaluate_or client ch cs

-- The condition of a rule, if it has one.
unfoldable pub passes : Text → Channel → Option Condition → Bool
passes client ch none = true
passes client ch (some c) = matches_condition client ch c

-- A playlist rule looks at the clients of its condition only.
unfoldable pub evaluate_store_condition : Option Condition → Text → Bool
unfolding is_nil
evaluate_store_condition none client = true
evaluate_store_condition (some (condition selector patterns clients playlists all_of any_of invert))
      client =
    if not (is_nil clients) then (if contains clients client then not invert else invert) else true
