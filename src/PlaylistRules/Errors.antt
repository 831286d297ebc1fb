-- ===== src/PlaylistRules/Errors.antt =====
-- What becomes of the errors of the parts of a playlist rule.
use majmun.Base.{◌≡◌, refl, true, Option, none, some, arith}
use majmun.Base.Text.{Text}
use majmun.Base.Sorter.{Sorter}
use majmun.Urlgen.Types.{Url}
use majmun.Store.{Store}
use majmun.Rules.Fields.{Error}
use majmun.Rules.Conditions.{evaluate_store_condition}
use majmun.Duplicates.{
  RemoveDuplicatesRule, MergeDuplicatesRule, remove_duplicates, merge_duplicates,
}
use majmun.Sorting.{Sort}
use majmun.PlaylistRules.{apply_rule, sort_part, remove_part, merge_part}

sort_part_error :
    (parse_url : Text → Option Url) (sorter : Sorter) (client : Text) (rule : Option Sort)
    (run : Store × Option Error)
    → (sort_part parse_url sorter client rule run).1 ≡ run.1
unfolding sort_part
sort_part_error parse_url sorter client none run = refl
sort_part_error parse_url sorter client (some r) (st, e) = ground arith

-- Where a playlist rule both merges and removes duplicates, and the removal applies to the client
-- and succeeds, then the rule succeeds, even when its merge has failed: the error is lost.
pub merge_error_masked :
    (parse_url : Text → Option Url) (sorter : Sorter) (client : Text) (merge : MergeDuplicatesRule)
    (remove : RemoveDuplicatesRule) (sort_rule : Option Sort) (st : Store) (e : Error)
    → evaluate_store_condition merge.condition client ≡ true
    → evaluate_store_condition remove.condition client ≡ true
    → (merge_duplicates parse_url sorter merge st).1 ≡ some e
    → (remove_duplicates parse_url sorter remove (merge_duplicates parse_url sorter merge st).0).1
      ≡ none
    → (apply_rule parse_url sorter client
        (record {
          remove_duplicates = some remove;
          merge_channels = some merge;
          sort_rule = sort_rule;
        })
        st).1
      ≡ none
unfolding apply_rule remove_part merge_part
merge_error_masked parse_url sorter client merge remove sort_rule st e to_merge to_remove failed
      done =
    rw (sort_part_error, to_merge, to_remove) done
