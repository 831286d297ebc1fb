-- ===== src/Duplicates/Tests.antt =====
-- Merging and removing a concrete group.
use majmun.Base.{ℕ, ◌≡◌, refl, Bool, true, false, not, ◌&&◌, none, some, List, [], ◌∷◌, arith}
use majmun.Base.Tests.{◌==◌}
use majmun.Base.Lists.{any}
use majmun.Base.Text.{Text, codes}
use majmun.Channel.{get_attr}
use majmun.Duplicates.{remove_group, merge_group}
use majmun.Duplicates.Remove.{remove_group_marks}
use majmun.Duplicates.Merge.{merge_group_shares, tvg_id}
use majmun.Samples.{parse, three}

remove_group_marks_example :
    ((remove_group parse none (codes "One") (0 ∷ 1 ∷ []) three).0.memory 1).removed ≡ true
unfolding remove_group majmun.Duplicates.remove_step majmun.Duplicates.write_final
remove_group_marks_example = remove_group_marks parse none (codes "One") 0 1 1 [] three refl

merge_group_shares_example :
    (id : Text) × ((q : ℕ)
      → any (λ p. p == q) (0 ∷ 1 ∷ []) ≡ true
      → tvg_id ((merge_group parse none (codes "One") (0 ∷ 1 ∷ []) three).0.memory q) ≡ some id)
unfolding merge_group get_attr majmun.Base.Maps.lookup majmun.Base.Text.text_eq
merge_group_shares_example =
    merge_group_shares parse none (codes "One") 0 1 [] (codes "a") three refl refl
