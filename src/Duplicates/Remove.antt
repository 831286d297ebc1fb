-- ===== src/Duplicates/Remove.antt =====
-- remove_duplicates leaves one channel of each group.
use majmun.Base.{ℕ, ◌≡◌, refl, inl, inr, true, not, ◌&&◌, Option, none, some, List, [], ◌∷◌, arith}
use majmun.Base.Tests.{◌==◌, if◌then◌else◌, Option-cases}
use majmun.Base.Lists.{any}
use majmun.Base.Text.{Text}
use majmun.Urlgen.Types.{Url}
use majmun.Channel.{Selector, set_selected, mark_removed}
use majmun.Channel.Laws.{set_selected_keeps}
use majmun.Store.{Store, modify, update}
use majmun.Rules.Fields.{template_data}
use majmun.Duplicates.{
  RemoveFinalValue, write_field, write_optional, write_final, remove_step, remove_loop,
  remove_group, and_then-none,
}

module _ (parse_url : Text → Option Url) where
  write_field_at :
      (s : Selector) (value : Text) (r q : ℕ) (st : Store)
      → ((write_field parse_url s value r st).0.memory q).removed ≡ (st.memory q).removed
  unfolding write_field modify update
  write_field_at s value r q st =
      elim (Option-cases (set_selected parse_url s value (st.memory r))) [
        | inl e ↦ rw (e, write_field)
        | inr (ch, e) ↦
            rw (e, write_field)
              (ground (arith, set_selected_keeps parse_url s value (st.memory r) ch))
      ]

  write_final_at :
      (fv : Option RemoveFinalValue) (base_name : Text) (r q : ℕ) (st : Store)
      → ((write_final parse_url fv base_name r st).0.memory q).removed ≡ (st.memory q).removed
  unfolding write_final write_optional
  write_final_at none base_name r q st = refl
  write_final_at (some fv) base_name r q st =
      elim (Option-cases (fv.template (template_data (some base_name) (st.memory r)))) [
        | inl e ↦ rw (e, write_final)
        | inr (value, e) ↦ rw (e, write_final) (optional fv.selector value)
      ]
    where
      optional :
          (selector : Option Selector) (value : Text)
          → ((write_optional parse_url selector value r st).0.memory q).removed
            ≡ (st.memory q).removed
      optional none value = refl
      optional (some s) value = write_field_at s value r q st

  remove_step_marks :
      (fv : Option RemoveFinalValue) (base_name : Text) (best r q : ℕ) (st : Store)
      → ((remove_step parse_url fv base_name best r st).0.memory q).removed
        ≡ (if r == q && not (q == best) then true else (st.memory q).removed)
  unfolding remove_step modify update mark_removed
  remove_step_marks fv base_name best r q st = ground (arith, write_final_at fv base_name r q st)

  -- The channels of the list but `best` are removed, all others are marked as they were.
  remove_loop_marks :
      (fv : Option RemoveFinalValue) (base_name : Text) (best q : ℕ) (rs : List ℕ) (st : Store)
      → (remove_loop parse_url fv base_name best rs st).1 ≡ none
      → ((remove_loop parse_url fv base_name best rs st).0.memory q).removed
        ≡ (if any (λ r. r == q) rs && not (q == best) then true else (st.memory q).removed)
  unfolding remove_loop
  remove_loop_marks fv base_name best q [] st h = refl
  remove_loop_marks fv base_name best q (r ∷ rs) st h =
      let step = remove_step parse_url fv base_name best r st in
      let (fine, same) = and_then-none step (remove_loop parse_url fv base_name best rs) h in
      let rest = remove_loop_marks fv base_name best q rs step.0 (rw same at h) in
      rw (same, rest) (ground (arith, remove_step_marks fv base_name best r q st))

  -- A run of remove_duplicates over a group that ends without an error keeps the first channel of
  -- the group, marks all its other channels as removed, and marks no other channel.
  pub remove_group_marks :
      (fv : Option RemoveFinalValue) (base_name : Text) (best q r : ℕ) (rs : List ℕ) (st : Store)
      → (remove_group parse_url fv base_name (best ∷ r ∷ rs) st).1 ≡ none
      → ((remove_group parse_url fv base_name (best ∷ r ∷ rs) st).0.memory q).removed
        ≡ (if any (λ p. p == q) (r ∷ rs) && not (q == best) then true else (st.memory q).removed)
  unfolding remove_group
  remove_group_marks fv base_name best q r rs st h =
      rw (remove_loop_marks fv base_name best q (best ∷ r ∷ rs) st h) (ground arith)
