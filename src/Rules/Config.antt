-- ===== src/Rules/Config.antt =====
-- internal/config/common/condition.go and regexp.go, and the rule types of internal/config/rules.
-- A compiled expression is its source text with its two uses, and a template is its Execute.
use majmun.Base.{Bool, true, false, not, ◌&&◌, Option, none, some, List, [], ◌∷◌}
use majmun.Base.Text.{Text}
use majmun.Base.Maps.{Map}
use majmun.Channel.{Selector}

pub record Regexp : Type 0 where
  pub source : Text
  pub match_string : Text → Bool
  -- ReplaceAllString with the empty replacement
  pub erase : Text → Text

pub record TemplateData : Type 0 where
  pub base_name : Option Text
  pub name : Text
  pub url : Text
  pub attrs : Map Text
  pub tags : Map Text
  pub playlist_name : Text
  pub is_proxied : Bool

-- `none` is an error of Execute.
abbrev pub Template : Type 0
Template = TemplateData → Option Text

mutual
  -- Selector, patterns, clients, playlists, and, or, invert.
  pub data Condition : Type 0 where
    condition :
        Option Selector
        → List Regexp
        → List Text
        → List Text
        → Conditions
        → Conditions
        → Bool
        → Condition

  pub data Conditions : Type 0 where
    nil : Conditions
    cons : Condition → Conditions → Conditions

unfoldable pub is_nil {ℓ} : {A : Type ℓ} → List A → Bool
is_nil [] = true
is_nil (x ∷ xs) = false

unfoldable pub no_conditions : Conditions → Bool
no_conditions nil = true
no_conditions (cons c cs) = false

unfoldable pub no_selector : Option Selector → Bool
no_selector none = true
no_selector (some s) = false

unfoldable pub is_empty : Condition → Bool
unfolding is_nil no_conditions no_selector
is_empty (condition selector patterns clients playlists all_of any_of invert) =
    no_selector selector
    && is_nil patterns
    && is_nil clients
    && is_nil playlists
    && no_conditions all_of
    && no_conditions any_of
    && not invert

-- The selector of a rule that writes a field is present: Validate refuses a rule without one.
pub record SetFieldRule : Type 0 where
  pub selector : Selector
  pub template : Template
  pub condition : Option Condition

pub record RemoveFieldRule : Type 0 where
  pub selector : Selector
  pub condition : Option Condition

-- The fields that are set in a channel rule; a rule of a marking kind is its condition.
pub record Rule : Type 0 where
  pub set_field : Option SetFieldRule
  pub remove_field : Option RemoveFieldRule
  pub remove_channel : Option (Option Condition)
  pub mark_hidden : Option (Option Condition)
