-- ===== src/PlaylistRules/Tests.antt =====
-- A merge that fails beside a removal that succeeds.
use majmun.Base.{ℕ, ◌≡◌, refl, Bool, true, false, Option, none, some, List, [], ◌∷◌}
use majmun.Base.Lists.{take}
use majmun.Base.Text.{Text, codes}
use majmun.Base.Insertion.{insertion_sorter}
use majmun.Channel.{name}
use majmun.Rules.Config.{Regexp}
use majmun.Rules.Fields.{template_failed}
use majmun.Rules.Conditions.{evaluate_store_condition}
use majmun.Duplicates.{
  RemoveDuplicatesRule, MergeDuplicatesRule, remove_duplicates, merge_duplicates,
}
use majmun.PlaylistRules.{apply_rule}
use majmun.PlaylistRules.Errors.{merge_error_masked}
use majmun.Samples.{parse, three}

-- A pattern that erases all but three characters.
abbrev tail : Regexp
tail = record { source = codes "(?<=^...).*"; match_string = λ s. true; erase = take 3 }

abbrev bad_merge : MergeDuplicatesRule
bad_merge = record {
  selector = none;
  patterns = tail ∷ [];
  final_value =
      some (record { selector = record { type = name; value = [] }; template = λ d. none });
  condition = none;
}

abbrev good_removal : RemoveDuplicatesRule
good_removal = record {
  selector = none;
  patterns = tail ∷ [];
  final_value = none;
  condition = none;
}

merge_error_masked_example :
    (apply_rule parse insertion_sorter
      (codes "tv")
      (record {
        remove_duplicates = some good_removal;
        merge_channels = some bad_merge;
        sort_rule = none;
      })
      three).1
    ≡ none
unfolding evaluate_store_condition merge_duplicates remove_duplicates majmun.Matcher.group_channels
    majmun.Base.Maps.insert majmun.Base.Maps.lookup majmun.Base.Text.text_eq majmun.Base.Words.join
    majmun.Base.Words.fields majmun.Channel.get_field_value majmun.Channel.set_attr
    majmun.Store.modify majmun.Duplicates.remove_step majmun.Duplicates.write_final
merge_error_masked_example =
    merge_error_masked parse insertion_sorter (codes "tv") bad_merge good_removal none three
      template_failed refl refl refl refl
