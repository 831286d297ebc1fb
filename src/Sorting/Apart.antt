-- ===== src/Sorting/Apart.antt =====
-- The groups of the sort rule have different keys.
use mathlib.Core.Logic.Or
use mathlib.Core.List.{Mem, Nodup, Nodup-nil, Nodup-cons, mem-cons, not-mem-nil}
use majmun.Base.{ℕ, ◌≡◌, refl, sym, ap, ◌∙◌, inl, inr, false, List, [], ◌∷◌, map, arith}
use majmun.Base.Maps.{insert}
use majmun.Base.Tests.{Bool-cases}
use majmun.Base.Text.{Text, contains, text_eq, text_eq_iff}
use majmun.Channel.{Channel}
use majmun.Matcher.{Groups, append_to}
use majmun.Sorting.{Sort, get_group_key, groups_of}

abbrev pub keys : Groups → List Text
keys gs = map (λ (g : Text × List ℕ). g.0) gs

abbrev Unique : List Text → Type 0
Unique [] = Unit
Unique (k ∷ ks) = (contains ks k ≡ false) × Unique ks

contains-insert :
    (k j : Text) (v : List ℕ) (gs : Groups)
    → contains (keys gs) j ≡ false
    → text_eq k j ≡ false
    → contains (keys (insert k v gs)) j ≡ false
unfolding contains insert
contains-insert k j v [] h n = ground arith
contains-insert k j v ((i, w) ∷ gs) h n = elim (Bool-cases (text_eq i k)) [
  | inl e ↦ rw e (ground arith)
  | inr e ↦ rw e (ground (arith, contains-insert k j v gs))
]

insert-Unique :
    (k : Text) (v : List ℕ) (gs : Groups) → Unique (keys gs) → Unique (keys (insert k v gs))
unfolding contains insert
insert-Unique k v [] h = (refl, tt)
insert-Unique k v ((i, w) ∷ gs) h = elim (Bool-cases (text_eq i k)) [
  | inl e ↦ rw e (ap (contains (keys gs)) (sym ((text_eq_iff i k).0 e)) ∙ h.0, h.1)
  | inr e ↦
      let other : text_eq k i ≡ false = ground (arith, text_eq_iff i k, text_eq_iff k i) in
      rw e (contains-insert k i v gs h.0 other, insert-Unique k v gs h.1)
]

groups_of-Unique :
    (memory : ℕ → Channel) (rule : Sort) (rs : List ℕ) (gs : Groups)
    → Unique (keys gs)
    → Unique (keys (groups_of rule memory rs gs))
unfolding groups_of append_to
groups_of-Unique memory rule [] gs h = h
groups_of-Unique memory rule (r ∷ rs) gs h =
    let k = get_group_key rule (memory r) in
    groups_of-Unique memory rule rs (append_to k r gs) (insert-Unique k _ gs h)

absent-mem : (k : Text) (ks : List Text) → contains ks k ≡ false → ¬ Mem k ks
unfolding contains
absent-mem k [] h m = not-mem-nil m
absent-mem k (j ∷ ks) h m =
    Or.elim (hlevel) (mem-cons.0 m) (λ e. ground (arith, text_eq_iff j k))
      (absent-mem k ks (ground arith))

Nodup-of_Unique : (ks : List Text) → Unique ks → Nodup ks
Nodup-of_Unique [] h = Nodup-nil
Nodup-of_Unique (k ∷ ks) h = Nodup-cons.1 (absent-mem k ks h.0, Nodup-of_Unique ks h.1)

pub groups_of-Nodup :
    (memory : ℕ → Channel) (rule : Sort) (rs : List ℕ) → Nodup (keys (groups_of rule memory rs []))
groups_of-Nodup memory rule rs =
    Nodup-of_Unique (keys (groups_of rule memory rs [])) (groups_of-Unique memory rule rs [] tt)
