-- ===== src/Duplicates.antt =====
-- internal/listing/m3u8/rules/playlist/merge_duplicates.go and remove_duplicates.go. A processor
-- returns the store as it left it, beside the error that stopped it.
pub mod Remove
pub mod Merge
pub mod Tests
use majmun.Base.{ℕ, ◌≡◌, refl, zero, suc, Bool, true, false, Option, none, some, List, [], ◌∷◌}
use majmun.Base.Tests.{◌==◌, if◌then◌else◌}
use majmun.Base.Text.{Text}
use majmun.Base.Sorter.{Sorter}
use majmun.Urlgen.Types.{Url}
use majmun.Channel.{Channel, Selector, attr_tvg_id, get_attr, set_attr, mark_removed, set_selected}
use majmun.Store.{Store, modify}
use majmun.Rules.Config.{Regexp, Template, Condition}
use majmun.Rules.Fields.{Error, template_failed, invalid_url, template_data}
use majmun.Matcher.{Groups, group_channels}

abbrev pub Run : Type 0
Run = Store × Option Error

-- The next step, unless an error stopped the run.
abbrev pub and_then : Run → (Store → Run) → Run
and_then (st, none) f = f st
and_then (st, some e) f = (st, some e)

-- A run of two steps without an error had none in the first.
pub and_then-none :
    (run : Run) (f : Store → Run)
    → (and_then run f).1 ≡ none
    → (run.1 ≡ none) × (and_then run f ≡ f run.0)
and_then-none (st, none) f h = (refl, refl)
and_then-none (st, some e) f h = absurd (cc h)

-- remove_duplicates does nothing with a value that has no selector.
pub record RemoveFinalValue : Type 0 where
  pub selector : Option Selector
  pub template : Template

pub record RemoveDuplicatesRule : Type 0 where
  pub selector : Option Selector
  pub patterns : List Regexp
  pub final_value : Option RemoveFinalValue
  pub condition : Option Condition

pub record MergeFinalValue : Type 0 where
  pub selector : Selector
  pub template : Template

pub record MergeDuplicatesRule : Type 0 where
  pub selector : Option Selector
  pub patterns : List Regexp
  pub final_value : Option MergeFinalValue
  pub condition : Option Condition

unfoldable pub copy_id : Text → List ℕ → Store → Store
copy_id id [] st = st
copy_id id (r ∷ rs) st = copy_id id rs (modify r (set_attr attr_tvg_id id) st)

-- The best channel's tvg-id, if it has one, goes to the others.
unfoldable pub share_id : ℕ → List ℕ → Store → Store
unfolding copy_id
share_id best rs st = elim (get_attr (st.memory best) attr_tvg_id) [
  | none ↦ st
  | some id ↦ copy_id id rs st
]

module _ (parse_url : Text → Option Url) where
  -- Write a value to the field of the channel at `r`.
  unfoldable pub write_field : Selector → Text → ℕ → Store → Run
  write_field selector value r st = elim (set_selected parse_url selector value (st.memory r)) [
    | none ↦ (st, some invalid_url)
    | some ch ↦ (modify r (λ _. ch) st, none)
  ]

  unfoldable pub write_optional : Option Selector → Text → ℕ → Store → Run
  unfolding write_field
  write_optional none value r st = (st, none)
  write_optional (some selector) value r st = write_field selector value r st

  unfoldable pub write_final : Option RemoveFinalValue → Text → ℕ → Store → Run
  unfolding write_optional template_data
  write_final none base_name r st = (st, none)
  write_final (some fv) base_name r st =
      elim (fv.template (template_data (some base_name) (st.memory r))) [
        | none ↦ (st, some template_failed)
        | some value ↦ write_optional fv.selector value r st
      ]

  -- The best channel gets the final value, the others are marked.
  unfoldable pub remove_step : Option RemoveFinalValue → Text → ℕ → ℕ → Store → Run
  remove_step fv base_name best r st =
      if r == best then write_final fv base_name r st else (modify r mark_removed st, none)

  unfoldable pub remove_loop : Option RemoveFinalValue → Text → ℕ → List ℕ → Store → Run
  remove_loop fv base_name best [] st = (st, none)
  remove_loop fv base_name best (r ∷ rs) st =
      and_then (remove_step fv base_name best r st) (remove_loop fv base_name best rs)

  -- A group of at most one channel is passed over.
  unfoldable pub remove_group : Option RemoveFinalValue → Text → List ℕ → Store → Run
  unfolding remove_loop
  remove_group fv base_name [] st = (st, none)
  remove_group fv base_name (r ∷ []) st = (st, none)
  remove_group fv base_name (r ∷ q ∷ rs) st = remove_loop fv base_name r (r ∷ q ∷ rs) st

  unfoldable pub process_duplicate_groups : Option RemoveFinalValue → Groups → Store → Run
  unfolding remove_group
  process_duplicate_groups fv [] st = (st, none)
  process_duplicate_groups fv ((base_name, rs) ∷ groups) st =
      and_then (remove_group fv base_name rs st) (process_duplicate_groups fv groups)

  unfoldable pub remove_duplicates : Sorter → RemoveDuplicatesRule → Store → Run
  unfolding process_duplicate_groups
  remove_duplicates sorter rule st =
      let (groups, st') = group_channels sorter rule.selector rule.patterns st in
      process_duplicate_groups rule.final_value groups st'

  unfoldable pub write_all : Selector → Text → List ℕ → Store → Run
  write_all selector value [] st = (st, none)
  write_all selector value (r ∷ rs) st =
      and_then (write_field selector value r st) (write_all selector value rs)

  unfoldable pub merge_final : Option MergeFinalValue → Text → ℕ → List ℕ → Store → Run
  unfolding write_all template_data
  merge_final none base_name best rs st = (st, none)
  merge_final (some fv) base_name best rs st =
      elim (fv.template (template_data (some base_name) (st.memory best))) [
        | none ↦ (st, some template_failed)
        | some value ↦ write_all fv.selector value rs st
      ]

  unfoldable pub merge_group : Option MergeFinalValue → Text → List ℕ → Store → Run
  unfolding share_id merge_final
  merge_group fv base_name [] st = (st, none)
  merge_group fv base_name (r ∷ []) st = (st, none)
  merge_group fv base_name (r ∷ q ∷ rs) st =
      merge_final fv base_name r (r ∷ q ∷ rs) (share_id r (q ∷ rs) st)

  unfoldable pub process_merge_groups : Option MergeFinalValue → Groups → Store → Run
  unfolding merge_group
  process_merge_groups fv [] st = (st, none)
  process_merge_groups fv ((base_name, rs) ∷ groups) st =
      and_then (merge_group fv base_name rs st) (process_merge_groups fv groups)

  unfoldable pub merge_duplicates : Sorter → MergeDuplicatesRule → Store → Run
  unfolding process_merge_groups
  merge_duplicates sorter rule st =
      let (groups, st') = group_channels sorter rule.selector rule.patterns st in
      process_merge_groups rule.final_value groups st'
