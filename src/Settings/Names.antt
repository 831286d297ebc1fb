-- ===== src/Settings/Names.antt =====
-- MergeNameValues: the value of a name after a merge.
use majmun.Base.{
  inl, inr, ◌≡◌, refl, ap, sym, ◌∙◌, Bool, true, false, ◌||◌, Option, none, some, List, [], ◌∷◌,
  ◌++◌, arith,
}
use majmun.Base.Lists.{get_or, any}
use majmun.Base.Maps.{Map, lookup, insert, lookup-insert}
use majmun.Base.Tests.{if◌then◌else◌, Bool-cases}
use majmun.Base.Text.{Text, text_eq, text_eq_iff}
use majmun.Settings.{
  NameValue, base_loop, add_name, override_loop, name_values, merge_name_values, replace_option,
}

-- The value that a map built from the list holds for a name.
unfoldable pub last_value : Text → List NameValue → Option Text
last_value n [] = none
last_value n (nv ∷ nvs) =
    replace_option (if text_eq nv.name n then some nv.value else none) (last_value n nvs)

is_some : Option Text → Bool
is_some none = false
is_some (some v) = true

abbrev listed : Text → List Text → Bool
listed n order = any (λ k. text_eq k n) order

-- The names in order are those that have a value.
abbrev Agree : Map Text × List Text → Type 0
Agree (merged, order) = (n : Text) → listed n order ≡ is_some (lookup n merged)

listed-append :
    (n name : Text) (order : List Text)
    → listed n (order ++ name ∷ []) ≡ (listed n order || text_eq name n)
listed-append n name [] = ground arith
listed-append n name (k ∷ order) = ground (arith, listed-append n name order)

either :
    (b : Bool) (v : Text) (o : Option Text) → (is_some o || b) ≡ is_some (if b then some v else o)
unfolding is_some
either true w none = refl
either true w (some v) = refl
either false w none = refl
either false w (some v) = refl

append-Agree :
    (name value : Text) (merged : Map Text) (order : List Text)
    → Agree (merged, order)
    → Agree (insert name value merged, order ++ name ∷ [])
unfolding is_some
append-Agree name value merged order h n =
    rw (listed-append n name order, lookup-insert name n value merged, h n)
      (either (text_eq name n) value (lookup n merged))

known-Agree :
    (name value v : Text) (merged : Map Text) (order : List Text)
    → Agree (merged, order)
    → lookup name merged ≡ some v
    → Agree (insert name value merged, order)
unfolding is_some
known-Agree name value v merged order h known n = elim (Bool-cases (text_eq name n)) [
  | inl e ↦
      rw (h n, lookup-insert name n value merged, e)
        (ap (λ k. is_some (lookup k merged)) (sym ((text_eq_iff name n).0 e)) ∙ ap is_some known)
  | inr e ↦ rw (h n, lookup-insert name n value merged, e) refl
]

insert-Agree :
    (name value : Text) (merged : Map Text) (order : List Text)
    → Agree (merged, order)
    → Agree (insert name value merged, add_name (lookup name merged) name order)
unfolding add_name
insert-Agree name value merged order h = by_cases (lookup name merged) refl
  where
    by_cases :
        (o : Option Text)
        → lookup name merged ≡ o
        → Agree (insert name value merged, add_name o name order)
    by_cases none e = append-Agree name value merged order h
    by_cases (some v) e = known-Agree name value v merged order h e

base_loop-Agree :
    (nvs : List NameValue) (s : Map Text × List Text) → Agree s → Agree (base_loop nvs s)
unfolding base_loop
base_loop-Agree [] s h = h
base_loop-Agree (nv ∷ nvs) (merged, order) h =
    base_loop-Agree nvs _ (append-Agree nv.name nv.value merged order h)

override_loop-Agree :
    (nvs : List NameValue) (s : Map Text × List Text) → Agree s → Agree (override_loop nvs s)
unfolding override_loop
override_loop-Agree [] s h = h
override_loop-Agree (nv ∷ nvs) (merged, order) h =
    override_loop-Agree nvs _ (insert-Agree nv.name nv.value merged order h)

pushed :
    (b : Bool) (v : Text) (old new : Option Text)
    → replace_option (if b then some v else old) new
      ≡ replace_option old (replace_option (if b then some v else none) new)
pushed true v old none = refl
pushed true v old (some w) = refl
pushed false v old none = refl
pushed false v old (some w) = refl

lookup-base_loop :
    (n : Text) (nvs : List NameValue) (s : Map Text × List Text)
    → lookup n (base_loop nvs s).0 ≡ replace_option (lookup n s.0) (last_value n nvs)
unfolding base_loop last_value
lookup-base_loop n [] s = refl
lookup-base_loop n (nv ∷ nvs) (merged, order) =
    lookup-base_loop n nvs (insert nv.name nv.value merged, order ++ nv.name ∷ [])
    ∙ ap (λ o. replace_option o (last_value n nvs)) (lookup-insert nv.name n nv.value merged)
    ∙ pushed (text_eq nv.name n) nv.value (lookup n merged) (last_value n nvs)

lookup-override_loop :
    (n : Text) (nvs : List NameValue) (s : Map Text × List Text)
    → lookup n (override_loop nvs s).0 ≡ replace_option (lookup n s.0) (last_value n nvs)
unfolding override_loop last_value
lookup-override_loop n [] s = refl
lookup-override_loop n (nv ∷ nvs) (merged, order) =
    lookup-override_loop n nvs
      (insert nv.name nv.value merged, add_name (lookup nv.name merged) nv.name order)
    ∙ ap (λ o. replace_option o (last_value n nvs)) (lookup-insert nv.name n nv.value merged)
    ∙ pushed (text_eq nv.name n) nv.value (lookup n merged) (last_value n nvs)

pub replace_option-none {ℓ} : {A : Type ℓ} (o : Option A) → replace_option none o ≡ o
replace_option-none none = refl
replace_option-none (some v) = refl

again : (c : Bool) (v : Text) → replace_option (some v) (if c then some v else none) ≡ some v
again true v = refl
again false v = refl

-- What the list of the result holds for a name.
last_value-name_values :
    (n : Text) (merged : Map Text) (order : List Text)
    → last_value n (name_values merged order)
      ≡ (if listed n order then some (get_or (lookup n merged) []) else none)
unfolding last_value name_values
last_value-name_values n merged [] = refl
last_value-name_values n merged (k ∷ order) = elim (Bool-cases (text_eq k n)) [
  | inl e ↦
      rw (last_value-name_values n merged order, e, (text_eq_iff k n).0 e)
        (again (listed n order) (get_or (lookup n merged) []))
  | inr e ↦ rw (last_value-name_values n merged order, e) (replace_option-none _)
]

found : (o : Option Text) → (if is_some o then some (get_or o []) else none) ≡ o
unfolding is_some
found none = refl
found (some v) = refl

-- After a merge a name has the value that the override holds for it, or else that of the base.
pub merge_name_values-last_value :
    (n : Text) (base override : List NameValue)
    → last_value n (merge_name_values base override)
      ≡ replace_option (last_value n base) (last_value n override)
unfolding merge_name_values last_value is_some lookup
merge_name_values-last_value n [] override = sym (replace_option-none (last_value n override))
merge_name_values-last_value n (b ∷ base) [] = refl
merge_name_values-last_value n (b ∷ base) (o ∷ override) =
    let s = base_loop (b ∷ base) ([], []) in
    let r = override_loop (o ∷ override) s in
    last_value-name_values n r.0 r.1
    ∙ ap (λ c. if c then some (get_or (lookup n r.0) []) else none)
        (override_loop-Agree (o ∷ override) s (base_loop-Agree (b ∷ base) ([], []) (λ k. refl)) n)
    ∙ found (lookup n r.0)
    ∙ lookup-override_loop n (o ∷ override) s
    ∙ ap (λ x. replace_option x (last_value n (o ∷ override)))
        (lookup-base_loop n (b ∷ base) ([], []) ∙ replace_option-none (last_value n (b ∷ base)))
