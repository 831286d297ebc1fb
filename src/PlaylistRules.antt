-- ===== src/PlaylistRules.antt =====
-- internal/listing/m3u8/rules/playlist/processor.go: the playlist rules, in order. `cancelled_at i`
-- is whether the context is done at its i-th poll.
pub mod Errors
pub mod Tests
use majmun.Base.{ℕ, suc, Bool, true, false, ◌&&◌, Option, none, some, List, [], ◌∷◌}
use majmun.Base.Tests.{if◌then◌else◌}
use majmun.Base.Text.{Text}
use majmun.Base.Sorter.{Sorter}
use majmun.Urlgen.Types.{Url}
use majmun.Store.{Store}
use majmun.Rules.Fields.{Error, cancelled}
use majmun.Rules.Conditions.{evaluate_store_condition}
use majmun.Duplicates.{
  Run, RemoveDuplicatesRule, MergeDuplicatesRule, remove_duplicates, merge_duplicates,
}
use majmun.Sorting
use majmun.Sorting.{Sort}

-- The fields that are set in a playlist rule.
pub record PlaylistRule : Type 0 where
  pub remove_duplicates : Option RemoveDuplicatesRule
  pub merge_channels : Option MergeDuplicatesRule
  pub sort_rule : Option Sort

module _ (parse_url : Text → Option Url) (sorter : Sorter) (client : Text) where
  unfoldable pub merge_part : Option MergeDuplicatesRule → Run → Run
  merge_part none run = run
  merge_part (some r) (st, e) =
      if evaluate_store_condition r.condition client
      then merge_duplicates parse_url sorter r st
      else (st, e)

  -- Its error takes the place of that of the merge before it.
  unfoldable pub remove_part : Option RemoveDuplicatesRule → Run → Run
  remove_part none run = run
  remove_part (some r) (st, e) =
      if evaluate_store_condition r.condition client
      then remove_duplicates parse_url sorter r st
      else (st, e)

  unfoldable pub sort_part : Option Sort → Run → Run
  sort_part none run = run
  sort_part (some r) (st, e) =
      if evaluate_store_condition r.condition client
      then (Sorting.apply sorter r st, e)
      else (st, e)

  unfoldable pub apply_rule : PlaylistRule → Store → Run
  unfolding merge_part remove_part sort_part
  apply_rule rule st =
      sort_part rule.sort_rule
        (remove_part rule.remove_duplicates (merge_part rule.merge_channels (st, none)))

  unfoldable pub apply : (ℕ → Bool) → ℕ → List PlaylistRule → Store → Run
  unfolding apply_rule
  apply cancelled_at i [] st = (st, none)
  apply cancelled_at i (rule ∷ rules) st =
      let (st', e) = apply_rule rule st in
      let rest = apply cancelled_at (suc i) rules st' in
      if cancelled_at i
      then (st, some cancelled)
      else elim e [ none ↦ rest | some x ↦ (st', some x) ]
