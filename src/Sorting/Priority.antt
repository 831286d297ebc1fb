-- ===== src/Sorting/Priority.antt =====
-- The order of the sort rule, described without the code: the place of a value among the patterns, and
-- which channels and groups may stand behind which.
use majmun.Base.{
  ℕ, suc, ◌+◌, ◌<◌, ◌≡◌, ◌⊎◌, refl, inl, inr, Bool, true, false, not, ◌&&◌, Option, none, some,
  List, [], ◌∷◌, arith,
}
use majmun.Base.Lists.{All, length, nth, take, get_or}
use majmun.Base.Tests.{◌==◌, ltb, if◌then◌else◌, Bool-cases}
use majmun.Base.Text.{Text, text_eq}
use majmun.Base.Sorter.{InOrder}
use majmun.Channel.{Channel, get_field_value}
use majmun.Natural.{natural_less}
use majmun.Rules.Config.{Regexp}
use majmun.Sorting.{
  Sort, GroupByRule, first_matching, first_empty, order_priority, field_priority, group_priority_of,
  get_group_priority, get_channel_priority, field_less, channel_less, group_less,
}

-- The n-th entry is the first at which a test holds.
abbrev pub IsFirst : (Regexp → Bool) → List Regexp → ℕ → Type 0
IsFirst test xs n =
    ((p : Regexp) × (nth n xs ≡ some p) × (test p ≡ true)) × All (λ q. test q ≡ false) (take n xs)

abbrev pub Nowhere : (Regexp → Bool) → List Regexp → Type 0
Nowhere test xs = All (λ q. test q ≡ false) xs

abbrev pub is_blank : Regexp → Bool
is_blank p = text_eq p.source []

abbrev pub fits : Text → Regexp → Bool
fits v p = not (is_blank p) && p.match_string v

-- The priority of a value: the place of the first pattern that is not empty and matches it, or else
-- of the first empty pattern, or else that behind all patterns.
abbrev pub IsPriority : List Regexp → Text → ℕ → Type 0
IsPriority order v n =
    IsFirst (fits v) order n
    ⊎ (Nowhere (fits v) order
        × (IsFirst is_blank order n ⊎ (Nowhere is_blank order × (n ≡ length order))))

abbrev pub IsFieldPriority : List Regexp → Option Text → ℕ → Type 0
IsFieldPriority order none n = n ≡ length order
IsFieldPriority order (some v) n = IsPriority order v n

-- May a field with the value `w` stand behind one with `v`? A missing field comes last.
abbrev pub FieldMayFollow : Option Text → Option Text → Type 0
FieldMayFollow v none = Unit
FieldMayFollow none (some w) = ⊥
FieldMayFollow (some v) (some w) = natural_less w v ≡ false

-- May channel `b` stand behind channel `a`?
abbrev pub MayFollow : Sort → Channel → Channel → Type 0
MayFollow rule a b =
    (p : ℕ) × (q : ℕ) × IsFieldPriority rule.order (get_field_value rule.selector a) p
    × IsFieldPriority rule.order (get_field_value rule.selector b) q
    × ((p < q)
        ⊎ ((p ≡ q)
            × FieldMayFollow (get_field_value rule.selector a) (get_field_value rule.selector b)))

-- May the group with the key `j` stand behind the one with the key `k`?
abbrev pub GroupMayFollow : GroupByRule → Text → Text → Type 0
GroupMayFollow g k j =
    (p : ℕ) × (q : ℕ) × IsPriority g.order k p
    × IsPriority g.order j q
    × ((p < q) ⊎ ((p ≡ q) × (natural_less j k ≡ false)))

-- Every entry is related to all behind it.
abbrev pub Ordered : {A : Type 0} → (A → A → Type 0) → List A → Type 0
Ordered R [] = Unit
Ordered R (x ∷ xs) = All (R x) xs × Ordered R xs

-- A search from place `i`.
abbrev Found : (Regexp → Bool) → List Regexp → ℕ → Option ℕ → Type 0
Found test xs i none = Nowhere test xs
Found test xs i (some k) = (n : ℕ) × (k ≡ i + n) × IsFirst test xs n

Found-hit :
    (test : Regexp → Bool) (p : Regexp) (ps : List Regexp) (i : ℕ)
    → test p ≡ true
    → Found test (p ∷ ps) i (some i)
Found-hit test p ps i e = (0, omega arith, ((p, refl, e), tt))

Found-miss :
    (test : Regexp → Bool) (p : Regexp) (ps : List Regexp) (i : ℕ) (o : Option ℕ)
    → test p ≡ false
    → Found test ps (suc i) o
    → Found test (p ∷ ps) i o
Found-miss test p ps i none e h = (e, h)
Found-miss test p ps i (some k) e (n, same, (hit, before)) =
    (suc n, omega (arith, same), (hit, (e, before)))

first_matching-Found :
    (v : Text) (order : List Regexp) (i : ℕ) → Found (fits v) order i (first_matching v order i)
unfolding first_matching
first_matching-Found v [] i = tt
first_matching-Found v (p ∷ ps) i = elim (Bool-cases (fits v p)) [
  | inl e ↦ rw e (Found-hit (fits v) p ps i e)
  | inr e ↦ rw e (Found-miss (fits v) p ps i _ e (first_matching-Found v ps (suc i)))
]

first_empty-Found : (order : List Regexp) (i : ℕ) → Found is_blank order i (first_empty order i)
unfolding first_empty
first_empty-Found [] i = tt
first_empty-Found (p ∷ ps) i = elim (Bool-cases (is_blank p)) [
  | inl e ↦ rw e (Found-hit is_blank p ps i e)
  | inr e ↦ rw e (Found-miss is_blank p ps i _ e (first_empty-Found ps (suc i)))
]

at_place :
    (test : Regexp → Bool) (xs : List Regexp) (k n : ℕ)
    → k ≡ 0 + n
    → IsFirst test xs n
    → IsFirst test xs k
at_place test xs k n e h = let same : k ≡ n = omega (arith, e) in rw same h

order_priority-IsPriority :
    (order : List Regexp) (v : Text) → IsPriority order v (order_priority order v)
unfolding order_priority
order_priority-IsPriority order v =
    go (first_matching v order 0) (first_empty order 0) (first_matching-Found v order 0)
      (first_empty-Found order 0)
  where
    go :
        (m e : Option ℕ)
        → Found (fits v) order 0 m
        → Found is_blank order 0 e
        → IsPriority order v (elim m [ some i ↦ i | none ↦ get_or e (length order) ])
    go (some k) e (n, same, h) b = inl (at_place (fits v) order k n same h)
    go none (some k) h (n, same, b) = inr (h, inl (at_place is_blank order k n same b))
    go none none h b = inr (h, inr (b, refl))

field_priority-IsFieldPriority :
    (order : List Regexp) (o : Option Text) → IsFieldPriority order o (field_priority order o)
unfolding field_priority
field_priority-IsFieldPriority order none = refl
field_priority-IsFieldPriority order (some v) = order_priority-IsPriority order v

field_less-FieldMayFollow : (v w : Option Text) → field_less w v ≡ false → FieldMayFollow v w
unfolding field_less
field_less-FieldMayFollow v none h = tt
field_less-FieldMayFollow none (some w) h = cc
field_less-FieldMayFollow (some v) (some w) h = h

pub channel_less-MayFollow :
    (rule : Sort) (a b : Channel) → channel_less rule b a ≡ false → MayFollow rule a b
unfolding channel_less get_channel_priority
channel_less-MayFollow rule a b h =
    let v = get_field_value rule.selector a in
    let w = get_field_value rule.selector b in
    let p = field_priority rule.order v in
    let q = field_priority rule.order w in
    (
      p,
      q,
      field_priority-IsFieldPriority rule.order v,
      field_priority-IsFieldPriority rule.order w,
      elim (Bool-cases (q == p)) [
        | inl e ↦ inr (ground arith, field_less-FieldMayFollow v w (ground arith))
        | inr e ↦ inl (ground arith)
      ],
    )

pub group_less-GroupMayFollow :
    (rule : Sort) (g : GroupByRule) (k j : Text)
    → rule.group_by ≡ some g
    → group_less rule j k ≡ false
    → GroupMayFollow g k j
unfolding group_less get_group_priority group_priority_of
group_less-GroupMayFollow rule g k j grouped h =
    let p = order_priority g.order k in
    let q = order_priority g.order j in
    let less : (if not (q == p) then ltb q p else natural_less j k) ≡ false = rw grouped at h in
    (
      p,
      q,
      order_priority-IsPriority g.order k,
      order_priority-IsPriority g.order j,
      elim (Bool-cases (q == p)) [
        | inl e ↦ inr (ground arith, ground arith)
        | inr e ↦ inl (ground arith)
      ],
    )

All-InOrder :
    {A : Type 0} (less : A → A → Bool) (R : A → A → Type 0)
    → ((x y : A) → less y x ≡ false → R x y)
    → (x : A) (ys : List A) → All (λ y. less y x ≡ false) ys
    → All (R x) ys
All-InOrder less R h x [] o = tt
All-InOrder less R h x (y ∷ ys) o = (h x y o.0, All-InOrder less R h x ys o.1)

-- Entries that a comparison leaves in order are ordered by what it stands for.
pub InOrder-Ordered :
    {A : Type 0} (less : A → A → Bool) (R : A → A → Type 0)
    → ((x y : A) → less y x ≡ false → R x y)
    → (xs : List A) → InOrder less xs
    → Ordered R xs
InOrder-Ordered less R h [] o = tt
InOrder-Ordered less R h (x ∷ xs) o =
    (All-InOrder less R h x xs o.0, InOrder-Ordered less R h xs o.1)
