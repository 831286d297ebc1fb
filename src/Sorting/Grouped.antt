-- ===== src/Sorting/Grouped.antt =====
-- With groups, the channels come group by group.
use mathlib.Core.Bool.{Bool-set}
use mathlib.Core.List.{Nodup, Nodup-nil, Nodup-cons, not-mem-nil, Perm}
use mathlib.Core.List.Perm
use majmun.Base.{ℕ, ◌≡◌, refl, ap, sym, ◌∙◌, inl, inr, true, none, some, List, [], ◌∷◌, ◌++◌, arith}
use majmun.Base.Tests.{leb, Bool-cases}
use majmun.Base.Lists.{All, length, get_or}
use majmun.Base.Text.{Text, text_eq, text_eq_iff}
use majmun.Base.Sorter.{Sorter, SortContract}
use majmun.Channel.{Channel, get_field_value}
use majmun.Store.{Store}
use majmun.Matcher.{Groups}
use majmun.Sorting.{
  Sort, GroupByRule, group_less, get_group_key, group_key_of, groups_of, sort_groups, sort_channels,
  concat_groups, apply,
}
use majmun.Sorting.Order.{group_less-IsStrictWeak, IsStrictWeak-pull}
use majmun.Sorting.Priority.{
  MayFollow, GroupMayFollow, Ordered, InOrder-Ordered, group_less-GroupMayFollow,
}
use majmun.Sorting.Rearranged.{flat, in_groups, sort_channels-Ordered}
use majmun.Sorting.Keyed.{Every, Every-prop, All-Perm, key_of, Keyed, groups_of-Keyed}
use majmun.Sorting.Apart.{keys, groups_of-Nodup}

-- The field by which a channel is grouped, empty where it is missing.
abbrev pub key_in : GroupByRule → Channel → Text
key_in g ch = elim g.selector [ none ↦ [] | some s ↦ get_or (get_field_value (some s) ch) [] ]

-- The channels stand group by group: the groups have different keys and come in the order of the rule,
-- and each holds channels of its key, which stand in the order of the rule themselves.
pub record IsGrouped (rule : Sort) (g : GroupByRule) (memory : ℕ → Channel) (channels : List ℕ)
    : Type 0 where
  pub groups : Groups
  pub parts : channels ≡ flat groups
  pub apart : Nodup (keys groups)
  pub ordered : Ordered (λ (a b : Text × List ℕ). GroupMayFollow g a.0 b.0) groups
  pub members :
      All
        (λ (grp : Text × List ℕ).
          All (λ i. key_in g (memory i) ≡ grp.0) grp.1
          × Ordered (λ i j. MayFollow rule (memory i) (memory j)) grp.1)
        groups

module _ (memory : ℕ → Channel) (rule : Sort) (g : GroupByRule)
    (grouped : rule.group_by ≡ some g) where
  get_group_key-key_in : (ch : Channel) → get_group_key rule ch ≡ key_in g ch
  unfolding get_group_key group_key_of
  get_group_key-key_in ch = rw grouped refl

  keys_in :
      (k : Text) (xs : List ℕ)
      → Every (λ i. text_eq (key_of memory rule i) k) xs
      → All (λ i. key_in g (memory i) ≡ k) xs
  keys_in k [] h = tt
  keys_in k (x ∷ xs) h = (
    sym (get_group_key-key_in (memory x)) ∙ (text_eq_iff (key_of memory rule x) k).0 h.0,
    keys_in k xs h.1,
  )

  module _ (sorter : Sorter) (contract : SortContract sorter) where
    -- The groups, each sorted.
    sorted_parts : Groups → Groups
    sorted_parts [] = []
    sorted_parts ((k, rs) ∷ gs) = (k, sort_channels sorter rule memory rs) ∷ sorted_parts gs

    flat-sorted_parts : (gs : Groups) → concat_groups sorter rule memory gs ≡ flat (sorted_parts gs)
    unfolding concat_groups sorted_parts
    flat-sorted_parts [] = refl
    flat-sorted_parts ((k, rs) ∷ gs) =
        ap (λ zs. sort_channels sorter rule memory rs ++ zs) (flat-sorted_parts gs)

    keys-sorted_parts : (gs : Groups) → keys (sorted_parts gs) ≡ keys gs
    unfolding sorted_parts
    keys-sorted_parts [] = refl
    keys-sorted_parts ((k, rs) ∷ gs) = ap (λ ks. k ∷ ks) (keys-sorted_parts gs)

    abbrev Follows : Text × List ℕ → Text × List ℕ → Type 0
    Follows a b = GroupMayFollow g a.0 b.0

    behind-sorted_parts :
        (a : Text × List ℕ) (rs : List ℕ) (gs : Groups)
        → All (Follows a) gs
        → All (Follows (a.0, rs)) (sorted_parts gs)
    unfolding sorted_parts
    behind-sorted_parts a rs [] h = tt
    behind-sorted_parts a rs (b ∷ gs) h = (h.0, behind-sorted_parts a rs gs h.1)

    sorted_parts-Ordered : (gs : Groups) → Ordered Follows gs → Ordered Follows (sorted_parts gs)
    unfolding sorted_parts
    sorted_parts-Ordered [] h = tt
    sorted_parts-Ordered (a ∷ gs) h = (
      behind-sorted_parts a (sort_channels sorter rule memory a.1) gs h.0,
      sorted_parts-Ordered gs h.1,
    )

    sorted-Keyed :
        (k : Text) (rs : List ℕ)
        → Every (λ i. text_eq (key_of memory rule i) k) rs
        → Every (λ i. text_eq (key_of memory rule i) k) (sort_channels sorter rule memory rs)
    unfolding sort_channels
    sorted-Keyed k rs h =
        All-Perm (λ i. text_eq (key_of memory rule i) k ≡ true)
          (λ i. Bool-set (text_eq (key_of memory rule i) k) true)
          (Perm.symm (contract.permutes ℕ _ rs)) h

    sorted_parts_members :
        (gs : Groups)
        → Keyed memory rule gs
        → All
            (λ (grp : Text × List ℕ).
              All (λ i. key_in g (memory i) ≡ grp.0) grp.1
              × Ordered (λ i j. MayFollow rule (memory i) (memory j)) grp.1)
            (sorted_parts gs)
    unfolding sorted_parts
    sorted_parts_members [] w = tt
    sorted_parts_members ((k, rs) ∷ gs) w = (
      (keys_in k _ (sorted-Keyed k rs w.0), sort_channels-Ordered sorter contract rule memory rs),
      sorted_parts_members gs w.1,
    )

    sort_groups-Perm : (gs : Groups) → Perm (sort_groups sorter rule gs) gs
    unfolding sort_groups
    sort_groups-Perm gs = contract.permutes (Text × List ℕ) _ gs

    -- Sorting keeps the groups keyed.
    sort_groups-Keyed :
        (gs : Groups) → Keyed memory rule gs → Keyed memory rule (sort_groups sorter rule gs)
    sort_groups-Keyed gs w =
        All-Perm (λ (h : Text × List ℕ). Every (λ i. text_eq (key_of memory rule i) h.0) h.1)
          (λ h. Every-prop (λ i. text_eq (key_of memory rule i) h.0) h.1)
          (Perm.symm (sort_groups-Perm gs)) w

    sort_groups-Ordered : (gs : Groups) → Ordered Follows (sort_groups sorter rule gs)
    unfolding sort_groups
    sort_groups-Ordered gs =
        InOrder-Ordered (λ (a b : Text × List ℕ). group_less rule a.0 b.0) Follows
          (λ a b. group_less-GroupMayFollow rule g a.0 b.0 grouped) _
          (contract.sorts (Text × List ℕ) _ gs (
            IsStrictWeak-pull (λ (h : Text × List ℕ). h.0) (group_less rule)
              (group_less-IsStrictWeak rule)))

    concat-IsGrouped :
        (rs : List ℕ)
        → IsGrouped rule g memory (
            concat_groups sorter rule memory
              (sort_groups sorter rule (groups_of rule memory rs [])))
    concat-IsGrouped rs =
        let gs = groups_of rule memory rs [] in
        let sorted = sort_groups sorter rule gs in
        record {
          groups = sorted_parts sorted;
          parts = flat-sorted_parts sorted;
          apart = rw (keys-sorted_parts sorted) (
              Perm.nodup (Perm.symm (Perm.map (λ (h : Text × List ℕ). h.0) (sort_groups-Perm gs)))
                (groups_of-Nodup memory rule rs));
          ordered = sorted_parts-Ordered sorted (sort_groups-Ordered gs);
          members =
              sorted_parts_members sorted
                (sort_groups-Keyed gs (groups_of-Keyed memory rule rs [] tt));
        }

-- With groups, the channels of the sorted store stand group by group. The groups are those of the field
-- of the group rule; no two groups have the same key, and they come by the priority of their keys, that
-- of the place of the first pattern that fits, or else in the natural order of their keys. Within a
-- group the channels stand in the order of the rule.
pub apply-groups_InOrder :
    (sorter : Sorter) (contract : SortContract sorter) (rule : Sort) (g : GroupByRule) (st : Store)
    → rule.group_by ≡ some g
    → IsGrouped rule g st.memory (apply sorter rule st).channels
unfolding apply
apply-groups_InOrder sorter contract rule g st grouped =
    elim (Bool-cases (leb (length st.channels) 1)) [
      | inl e ↦ rw (e, apply) (short st.channels e)
      | inr e ↦
          rw (e, apply, in_groups sorter rule st.memory st.channels g grouped)
            (concat-IsGrouped st.memory rule g grouped sorter contract st.channels)
    ]
  where
    short : (rs : List ℕ) → leb (length rs) 1 ≡ true → IsGrouped rule g st.memory rs
    short [] h = record { groups = []; parts = refl; apart = Nodup-nil; ordered = tt; members = tt }
    short (r ∷ []) h = record {
      groups = (key_in g (st.memory r), r ∷ []) ∷ [];
      parts = refl;
      apart = Nodup-cons.1 (not-mem-nil, Nodup-nil);
      ordered = (tt, tt);
      members = (((refl, tt), (tt, tt)), tt);
    }
    short (r ∷ q ∷ rs) h = absurd (ground arith)
