-- ===== src/Rules/Fields.antt =====
-- internal/listing/m3u8/rules/channel/processor.go: the rules that change one channel. The channel
-- with its changes is returned; an error ends the run, and the store with it is dropped.
-- `parse_url` is url.Parse, and `cancelled i` is whether the context is done at its i-th poll.
pub mod Laws
pub mod Tags
use majmun.Base.{ℕ, zero, suc, Bool, true, false, not, Option, none, some, List, [], ◌∷◌}
use majmun.Base.Tests.{if◌then◌else◌}
use majmun.Base.Text.{Text}
use majmun.Base.Result.{Result, ok, err, ◌>>=◌}
use majmun.Urlgen.Types.{Url}
use majmun.Channel.{
  Channel, Selector, SelectorType, name, url, attr, tag, unset, get_attr, get_tag, delete_attr,
  mark_hidden, mark_removed, set_selected,
}
use majmun.Store.{Store, modify, update}
use majmun.Rules.Config.{Template, TemplateData, Condition, Rule, SetFieldRule, RemoveFieldRule}
use majmun.Rules.Conditions.{passes}

pub data Error : Type 0 where
  template_failed invalid_url cancelled : Error

unfoldable pub uri_string : Option Url → Text
uri_string none = []
uri_string (some u) = u.string

-- The map that a template reads.
unfoldable pub template_data : Option Text → Channel → TemplateData
unfolding uri_string
template_data base_name ch = record {
  base_name = base_name;
  name = ch.track.name;
  url = uri_string ch.track.uri;
  attrs = ch.track.attrs;
  tags = ch.track.tags;
  playlist_name = ch.playlist.name;
  is_proxied = ch.playlist.is_proxied;
}

unfoldable pub or_error {ℓ} : {A : Type ℓ} → Error → Option A → Result Error A
or_error e none = err e
or_error e (some a) = ok a

module _ (parse_url : Text → Option Url) (client : Text) where
  process_set_field : SetFieldRule → Channel → Result Error Channel
  unfolding or_error template_data
  process_set_field rule ch = if not (passes client ch rule.condition) then ok ch else do
    value ← or_error template_failed (rule.template (template_data none ch))
    or_error invalid_url (set_selected parse_url rule.selector value ch)

-- The loop over the map finds the key, or ends. On a tag it deletes the attribute of that name.
remove_by_type : SelectorType → Text → Channel → Channel
remove_by_type attr key ch = elim (get_attr ch key) [ none ↦ ch | some v ↦ delete_attr key ch ]
remove_by_type tag key ch = elim (get_tag ch key) [ none ↦ ch | some v ↦ delete_attr key ch ]
remove_by_type name key ch = ch
remove_by_type url key ch = ch
remove_by_type unset key ch = ch

unfoldable pub process_remove_field : Text → RemoveFieldRule → Channel → Channel
unfolding remove_by_type
process_remove_field client rule ch =
    if not (passes client ch rule.condition)
    then ch
    else remove_by_type rule.selector.type rule.selector.value ch

process_remove_channel : Text → Option Condition → Channel → Channel
process_remove_channel client condition ch =
    if not (passes client ch condition) then ch else mark_removed ch

process_mark_hidden : Text → Option Condition → Channel → Channel
process_mark_hidden client condition ch =
    if not (passes client ch condition) then ch else mark_hidden ch

module _ (parse_url : Text → Option Url) (client : Text) where
  -- The first field that is set names the kind of the rule.
  unfoldable pub process_channel_rule : Rule → Channel → Result Error Channel
  unfolding process_set_field process_remove_field process_remove_channel process_mark_hidden
  process_channel_rule rule ch = elim rule.set_field [
    | some r ↦ process_set_field parse_url client r ch
    | none ↦ elim rule.remove_field [
      | some r ↦ ok (process_remove_field client r ch)
      | none ↦ elim rule.remove_channel [
        | some c ↦ ok (process_remove_channel client c ch)
        | none ↦ elim rule.mark_hidden [
          | some c ↦ ok (process_mark_hidden client c ch)
          | none ↦ ok ch
        ]
      ]
    ]
  ]

  unfoldable pub process_rules : List Rule → Channel → Result Error Channel
  process_rules [] ch = ok ch
  process_rules (rule ∷ rules) ch = do ch' ← process_channel_rule rule ch; process_rules rules ch'

  -- The loop over the channels of the store.
  unfoldable pub apply_loop : (ℕ → Bool) → List Rule → ℕ → List ℕ → Store → Result Error Store
  apply_loop cancelled_at rules i [] st = ok st
  apply_loop cancelled_at rules i (r ∷ rs) st = if cancelled_at i then err cancelled else do
    ch ← process_rules rules (st.memory r)
    apply_loop cancelled_at rules (suc i) rs (modify r (λ _. ch) st)

  unfoldable pub apply : (ℕ → Bool) → List Rule → Store → Result Error Store
  unfolding apply_loop
  apply cancelled_at rules st = apply_loop cancelled_at rules 0 st.channels st
