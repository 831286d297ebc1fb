-- ===== src/Sorting/Tests.antt =====
-- The sort rule on three channels.
use mathlib.Core.List.{Perm}
use majmun.Base.{◌≡◌, refl, none, some, [], ◌∷◌}
use majmun.Base.Text.{codes}
use majmun.Base.Insertion.{insertion_sorter, insertion_contract}
use majmun.Channel.{attr}
use majmun.Sorting.{Sort, GroupByRule, apply}
use majmun.Sorting.Priority.{MayFollow, Ordered}
use majmun.Sorting.Grouped.{IsGrouped, apply-groups_InOrder}
use majmun.Sorting.Rearranged.{apply-perm, apply-InOrder}
use majmun.Samples.{three, hd}

abbrev by_name : Sort
by_name = record { selector = none; order = hd ∷ []; group_by = none; condition = none }

abbrev grouped : Sort
grouped = record by_name {
  group_by =
      some
        (record { selector = some (record { type = attr; value = codes "tvg-id" }); order = [] });
}

apply-perm_example :
    Perm (apply insertion_sorter grouped three).channels three.channels
    × ((apply insertion_sorter grouped three).memory ≡ three.memory)
    × ((apply insertion_sorter grouped three).counter ≡ three.counter)
apply-perm_example = apply-perm insertion_sorter insertion_contract grouped three

apply-InOrder_example :
    Ordered
      (λ i j. MayFollow by_name (three.memory i) (three.memory j))
      (apply insertion_sorter by_name three).channels
apply-InOrder_example = apply-InOrder insertion_sorter insertion_contract by_name three refl

abbrev by_id : GroupByRule
by_id = record { selector = some (record { type = attr; value = codes "tvg-id" }); order = [] }

apply-groups_InOrder_example :
    IsGrouped grouped by_id three.memory (apply insertion_sorter grouped three).channels
apply-groups_InOrder_example =
    apply-groups_InOrder insertion_sorter insertion_contract grouped by_id three refl
