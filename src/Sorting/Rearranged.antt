-- ===== src/Sorting/Rearranged.antt =====
-- Sorting a store moves its channels and loses none.
use mathlib.Core.Logic.{∥∥₁_elim}
use mathlib.Core.List.{
  Perm, Permᴰ, Perm-prop, perm_middle, append_assoc, append-nil, perm_append_comm,
}
use mathlib.Core.List.Perm
use majmun.Base.{
  ℕ, ◌≡◌, refl, sym, ap, subst, inl, inr, true, ◌∙◌, Option, some, none, List, [], ◌∷◌, ◌++◌, arith,
}
use majmun.Base.Tests.{leb, Bool-cases, Option-cases}
use majmun.Base.Lists.{length, get_or}
use majmun.Base.Text.{Text, text_eq}
use majmun.Base.Maps.{lookup, insert}
use majmun.Base.Sorter.{Sorter, SortContract}
use majmun.Channel.{Channel}
use majmun.Store.{Store}
use majmun.Matcher.{Groups, append_to}
use majmun.Sorting.{
  Sort, GroupByRule, channel_less, sort_channels, get_group_key, groups_of, sort_groups,
  concat_groups, sorted_channels, apply,
}
use majmun.Sorting.Priority.{MayFollow, Ordered, channel_less-MayFollow, InOrder-Ordered}
use majmun.Sorting.Order.{channel_less-IsStrictWeak, IsStrictWeak-pull}

-- The entries of all groups.
abbrev pub flat : Groups → List ℕ
flat [] = []
flat (g ∷ gs) = g.1 ++ flat gs

Perm-of_eq : {xs ys : List ℕ} → xs ≡ ys → Perm xs ys
Perm-of_eq {xs} e = subst (Perm xs) e Perm.rfl

flat-insert :
    (k : Text) (r : ℕ) (old : List ℕ) (gs : Groups)
    → get_or (lookup k gs) [] ≡ old
    → Perm (flat (insert k (old ++ r ∷ []) gs)) (r ∷ flat gs)
unfolding insert lookup
flat-insert k r old [] h = rw (← h) Perm.rfl
flat-insert k r old ((j, w) ∷ gs) h = elim (Bool-cases (text_eq j k)) [
  | inl e ↦
      rw (e, append_assoc)
        (Perm.trans (perm_middle old (flat gs))
          (Perm.cons r (Perm.append_right (flat gs) (Perm-of_eq (sym (rw e at h))))))
  | inr e ↦ rw e (
      Perm.trans (Perm.append_left w (flat-insert k r old gs (rw e at h)))
        (perm_middle w (flat gs)))
]

flat-append_to : (k : Text) (r : ℕ) (gs : Groups) → Perm (flat (append_to k r gs)) (r ∷ flat gs)
unfolding append_to
flat-append_to k r gs = flat-insert k r (get_or (lookup k gs) []) gs refl

flat-groups_of :
    (rule : Sort) (memory : ℕ → Channel) (rs : List ℕ) (gs : Groups)
    → Perm (flat (groups_of rule memory rs gs)) (rs ++ flat gs)
unfolding groups_of
flat-groups_of rule memory [] gs = Perm.rfl
flat-groups_of rule memory (r ∷ rs) gs =
    let k = get_group_key rule (memory r) in
    Perm.trans (flat-groups_of rule memory rs (append_to k r gs))
      (Perm.trans (Perm.append_left rs (flat-append_to k r gs)) (perm_middle rs (flat gs)))

flat-Permᴰ : {gs hs : Groups} → Permᴰ gs hs → Perm (flat gs) (flat hs)
flat-Permᴰ Permᴰ.nil = Perm.rfl
flat-Permᴰ (Permᴰ.cons e d) =
    Perm.append (Perm-of_eq (ap (λ (g : Text × List ℕ). g.1) e)) (flat-Permᴰ d)
flat-Permᴰ (Permᴰ.swap {a = g} {b = h} {l = gs} e f) =
    rw (← e, ← f, ← append_assoc, ← append_assoc)
      (Perm.append_right (flat gs) (perm_append_comm g.1 h.1))
flat-Permᴰ (Permᴰ.trans d e) = Perm.trans (flat-Permᴰ d) (flat-Permᴰ e)

module _ (sorter : Sorter) (contract : SortContract sorter) (rule : Sort) where
  concat-flat :
      (memory : ℕ → Channel) (gs : Groups) → Perm (concat_groups sorter rule memory gs) (flat gs)
  unfolding concat_groups
  concat-flat memory [] = Perm.rfl
  concat-flat memory ((k, rs) ∷ gs) = Perm.append (contract.permutes ℕ _ rs) (concat-flat memory gs)

  sorted-perm :
      (memory : ℕ → Channel) (rs : List ℕ) → Perm (sorted_channels sorter rule memory rs) rs
  sorted-perm memory rs = elim (Option-cases rule.group_by) [
    | inl e ↦ unfold sorted_channels in rw (e, sorted_channels) (contract.permutes ℕ _ rs)
    | inr (g, e) ↦
        unfold sorted_channels in
        rw (e, sorted_channels)
          (Perm.trans (concat-flat memory (sort_groups sorter rule (groups_of rule memory rs []))) (
            Perm.trans
              (∥∥₁_elim (contract.permutes (Text × List ℕ) _ (groups_of rule memory rs []))
                Perm-prop flat-Permᴰ)
              (Perm.trans (flat-groups_of rule memory rs []) (Perm-of_eq (append-nil rs)))))
  ]

  -- The sort rule rearranges the channels of a store, with and without groups, and leaves the
  -- channels themselves and the counter as they are.
  pub apply-perm :
      (st : Store)
      → Perm (apply sorter rule st).channels st.channels
        × ((apply sorter rule st).memory ≡ st.memory)
        × ((apply sorter rule st).counter ≡ st.counter)
  unfolding apply
  apply-perm st = elim (Bool-cases (leb (length st.channels) 1)) [
    | inl e ↦ rw (e, apply) (Perm.rfl, refl, refl)
    | inr e ↦ rw (e, apply) (sorted-perm st.memory st.channels, refl, refl)
  ]

module _ (sorter : Sorter) (rule : Sort) (memory : ℕ → Channel) (rs : List ℕ) where
  abbrev by_groups : Option GroupByRule → List ℕ
  by_groups none = sort_channels sorter rule memory rs
  by_groups (some g) =
      concat_groups sorter rule memory (sort_groups sorter rule (groups_of rule memory rs []))

  sorted_channels-by_groups : sorted_channels sorter rule memory rs ≡ by_groups rule.group_by
  unfolding sorted_channels
  sorted_channels-by_groups = elim (Option-cases rule.group_by) [
    | inl e ↦ rw e refl
    | inr (g, e) ↦ rw e refl
  ]

  pub not_grouped :
      rule.group_by ≡ none
      → sorted_channels sorter rule memory rs ≡ sort_channels sorter rule memory rs
  not_grouped e = sorted_channels-by_groups ∙ ap by_groups e

  pub in_groups :
      (g : GroupByRule)
      → rule.group_by ≡ some g
      → sorted_channels sorter rule memory rs
        ≡ concat_groups sorter rule memory (sort_groups sorter rule (groups_of rule memory rs []))
  in_groups g e = sorted_channels-by_groups ∙ ap by_groups e

-- Sorted channels stand in the order of the rule.
pub sort_channels-Ordered :
    (sorter : Sorter) (contract : SortContract sorter) (rule : Sort) (memory : ℕ → Channel)
    (rs : List ℕ)
    → Ordered (λ i j. MayFollow rule (memory i) (memory j)) (sort_channels sorter rule memory rs)
unfolding sort_channels
sort_channels-Ordered sorter contract rule memory rs =
    InOrder-Ordered (λ i j. channel_less rule (memory i) (memory j)) _
      (λ i j. channel_less-MayFollow rule (memory i) (memory j)) _
      (contract.sorts ℕ _ rs
        (IsStrictWeak-pull memory (channel_less rule) (channel_less-IsStrictWeak rule)))

-- Without groups, the channels of the sorted store stand by their priority: that of the place of the
-- first pattern that is not empty and matches the field, or else of the first empty pattern, or else of
-- the end of the patterns, where the channels without the field are as well. With one priority they
-- stand by the natural order of their fields, and those without the field come last.
pub apply-InOrder :
    (sorter : Sorter) (contract : SortContract sorter) (rule : Sort) (st : Store)
    → rule.group_by ≡ none
    → Ordered (λ i j. MayFollow rule (st.memory i) (st.memory j)) (apply sorter rule st).channels
unfolding apply
apply-InOrder sorter contract rule st e = elim (Bool-cases (leb (length st.channels) 1)) [
  | inl k ↦ rw (k, apply) (short st.channels k)
  | inr k ↦
      rw (k, apply, not_grouped sorter rule st.memory st.channels e)
        (sort_channels-Ordered sorter contract rule st.memory st.channels)
]
  where
    short :
        (rs : List ℕ)
        → leb (length rs) 1 ≡ true
        → Ordered (λ i j. MayFollow rule (st.memory i) (st.memory j)) rs
    short [] h = tt
    short (r ∷ []) h = (tt, tt)
    short (r ∷ q ∷ rs) h = absurd (ground arith)
