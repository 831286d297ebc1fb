-- ===== src/Duplicates/Merge.antt =====
-- merge_duplicates gives the channels of a group one tvg-id.
use majmun.Base.{ℕ, ◌≡◌, refl, ◌∙◌, inl, inr, true, Option, none, some, List, [], ◌∷◌, arith}
use majmun.Base.Tests.{◌==◌, if◌then◌else◌, Option-cases}
use majmun.Base.Lists.{any}
use majmun.Base.Text.{Text, text_eq_refl, text_eq}
use majmun.Base.Maps.{lookup-insert}
use majmun.Urlgen.Types.{Url}
use majmun.Channel.{
  Channel, Selector, SelectorType, name, url, attr, tag, unset, set_selected, get_attr, set_attr,
  attr_tvg_id,
}
use majmun.Store.{Store, modify, update}
use majmun.Rules.Fields.{template_data}
use majmun.Duplicates.{
  and_then-none, MergeFinalValue, write_field, write_all, copy_id, share_id, merge_final,
  merge_group,
}

abbrev pub tvg_id : Channel → Option Text
tvg_id c = get_attr c attr_tvg_id

copy_id_at :
    (id : Text) (q : ℕ) (rs : List ℕ) (st : Store)
    → tvg_id ((copy_id id rs st).memory q)
      ≡ (if any (λ r. r == q) rs then some id else tvg_id (st.memory q))
unfolding copy_id
copy_id_at id q [] st = refl
copy_id_at id q (r ∷ rs) st = rw (copy_id_at id q rs (modify r (set_attr attr_tvg_id id) st)) (
    unfold modify update set_attr get_attr in
    ground (
      arith,
      lookup-insert attr_tvg_id attr_tvg_id id (st.memory r).track.attrs,
      text_eq_refl attr_tvg_id,
    ))

-- What writing a field does to the tvg-id.
abbrev written_id : SelectorType → Text → Text → Option Text → Option Text
written_id attr key value id = if text_eq key attr_tvg_id then some value else id
written_id name key value id = id
written_id tag key value id = id
written_id url key value id = id
written_id unset key value id = id

set_selected_id :
    (parse_url : Text → Option Url) (t : SelectorType) (key value : Text) (c c' : Channel)
    → set_selected parse_url (record { type = t; value = key }) value c ≡ some c'
    → tvg_id c' ≡ written_id t key value (tvg_id c)
unfolding set_selected get_attr
set_selected_id parse_url attr key value c c' e =
    ground (arith, lookup-insert key attr_tvg_id value c.track.attrs)
set_selected_id parse_url _ key value c c' e = ground arith

module _ (parse_url : Text → Option Url) where
  write_field_id :
      (t : SelectorType) (key value : Text) (r q : ℕ) (st : Store)
      → (write_field parse_url (record { type = t; value = key }) value r st).1 ≡ none
      → tvg_id ((write_field parse_url (record { type = t; value = key }) value r st).0.memory q)
        ≡ (if r == q then written_id t key value (tvg_id (st.memory q)) else tvg_id (st.memory q))
  write_field_id t key value r q st h =
      elim (Option-cases
        (set_selected parse_url (record { type = t; value = key }) value (st.memory r))) [
          | inl e ↦ absurd (unfold write_field in cc (rw (e, write_field) at h))
          | inr (ch, e) ↦
              unfold write_field modify update in
              rw (e, write_field)
                (ground (arith, set_selected_id parse_url t key value (st.memory r) ch))
        ]

  written_id_idem :
      (t : SelectorType) (key value : Text) (id : Option Text)
      → written_id t key value (written_id t key value id) ≡ written_id t key value id
  written_id_idem t key value id = ground arith

  write_all_id :
      (t : SelectorType) (key value : Text) (q : ℕ) (rs : List ℕ) (st : Store)
      → (write_all parse_url (record { type = t; value = key }) value rs st).1 ≡ none
      → tvg_id ((write_all parse_url (record { type = t; value = key }) value rs st).0.memory q) ≡ (
          if any (λ r. r == q) rs
          then written_id t key value (tvg_id (st.memory q))
          else tvg_id (st.memory q))
  unfolding write_all
  write_all_id t key value q [] st h = refl
  write_all_id t key value q (r ∷ rs) st h =
      let s : Selector = record { type = t; value = key } in
      let step = write_field parse_url s value r st in
      let (fine, same) = and_then-none step (write_all parse_url s value rs) h in
      let rest = write_all_id t key value q rs step.0 (rw same at h) in
      rw (same, rest)
        (ground (
          arith,
          write_field_id t key value r q st fine,
          written_id_idem t key value (tvg_id (st.memory q)),
        ))

  merge_final_id :
      (fv : Option MergeFinalValue) (base_name : Text) (best : ℕ) (rs : List ℕ) (id : Text)
      (st : Store)
      → (merge_final parse_url fv base_name best rs st).1 ≡ none
      → ((q : ℕ) → any (λ r. r == q) rs ≡ true → tvg_id (st.memory q) ≡ some id)
      → (id' : Text) × ((q : ℕ)
          → any (λ r. r == q) rs ≡ true
          → tvg_id ((merge_final parse_url fv base_name best rs st).0.memory q) ≡ some id')
  unfolding merge_final
  merge_final_id none base_name best rs id st h all_id = (id, all_id)
  merge_final_id (some fv) base_name best rs id st h all_id =
      elim (Option-cases (fv.template (template_data (some base_name) (st.memory best)))) [
        | inl e ↦ absurd (cc (rw (e, merge_final) at h))
        | inr (value, e) ↦
            let (id', k) = written_some fv.selector.type fv.selector.value value id in
            (
              id',
              λ q m.
                  rw (e, merge_final)
                    (write_all_id fv.selector.type fv.selector.value value q rs st
                        (rw (e, merge_final) at h)
                      ∙ ground (arith, all_id q m)),
            )
      ]
    where
      written_some :
          (t : SelectorType) (key value id : Text)
          → (id' : Text) × (written_id t key value (some id) ≡ some id')
      written_some attr key value id = (if text_eq key attr_tvg_id then value else id, ground arith)
      written_some name key value id = (id, refl)
      written_some tag key value id = (id, refl)
      written_some url key value id = (id, refl)
      written_some unset key value id = (id, refl)

  -- A run of merge_duplicates over a group whose first channel has a tvg-id, if it ends without an
  -- error, leaves all channels of the group with one tvg-id, whatever final value is written.
  pub merge_group_shares :
      (fv : Option MergeFinalValue) (base_name : Text) (best r : ℕ) (rs : List ℕ) (id : Text)
      (st : Store)
      → tvg_id (st.memory best) ≡ some id
      → (merge_group parse_url fv base_name (best ∷ r ∷ rs) st).1 ≡ none
      → (id' : Text) × ((q : ℕ)
          → any (λ p. p == q) (best ∷ r ∷ rs) ≡ true
          → tvg_id ((merge_group parse_url fv base_name (best ∷ r ∷ rs) st).0.memory q) ≡ some id')
  unfolding merge_group share_id
  merge_group_shares fv base_name best r rs id st e h =
      merge_final_id fv base_name best (best ∷ r ∷ rs) id (share_id best (r ∷ rs) st) h
        (λ q m. rw (e, share_id) (ground (arith, copy_id_at id q (r ∷ rs) st)))
