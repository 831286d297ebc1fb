-- ===== src/Rules/Tests.antt =====
-- The laws of conditions and channel rules at concrete rules.
use majmun.Base.{◌≡◌, refl, ◌↔◌, true, false, none, some, [], ◌∷◌, map, arith}
use majmun.Base.Text.{codes, text_eq}
use majmun.Base.Maps.{lookup}
use majmun.Base.Result.{map_ok, traverse, ok, err}
use majmun.Channel.{Channel, tag, get_attr, get_tag}
use majmun.Store.{Store}
use majmun.Store.Laws.{IsWell, contents}
use majmun.Rules.Config.{Condition, condition, nil, cons, Rule}
use majmun.Rules.Conditions.{matches_condition}
use majmun.Rules.Conditions.Laws.{Holds, matches_condition-Holds}
use majmun.Rules.Fields.{apply, process_remove_field}
use majmun.Rules.Fields.Laws.{after_rules, apply-traverse}
use majmun.Rules.Fields.Tags.{remove_tag_keeps_tag}
use majmun.Samples.{parse, channel, three, hd}

abbrev one : Channel
one = channel (codes "a") (codes "One") 0

abbrev only_hd : Condition
only_hd = condition none (hd ∷ []) (codes "tv" ∷ []) [] nil nil false

abbrev nested : Condition
nested = condition none [] [] [] nil (cons only_hd nil) true

abbrev hide_hd : Rule
hide_hd = record {
  set_field = none;
  remove_field = none;
  remove_channel = none;
  mark_hidden = some (some only_hd);
}

matches_condition-Holds_example :
    (matches_condition (codes "tv") one nested ≡ true) ↔ Holds (codes "tv") one nested
matches_condition-Holds_example = matches_condition-Holds (codes "tv") one nested

three-IsWell : IsWell three
three-IsWell = record { fresh = omega arith; distinct = omega arith }

apply-traverse_example :
    map_ok
      (λ st'. map st'.memory three.channels)
      (apply parse (codes "tv") (λ _. false) (hide_hd ∷ []) three)
    ≡ traverse (after_rules parse (codes "tv") (hide_hd ∷ [])) (contents three)
apply-traverse_example = apply-traverse parse (codes "tv") (hide_hd ∷ []) three three-IsWell

abbrev hidden_hd : Store
hidden_hd = elim (apply parse (codes "tv") (λ _. false) (hide_hd ∷ []) three) [
  | ok st ↦ st
  | err e ↦ three
]

remove_tag_keeps_tag_example :
    let ch' =
      process_remove_field
        (codes "tv")
        (record { selector = record { type = tag; value = codes "EXTGRP" }; condition = none })
        one in
    (ch'.track.tags ≡ one.track.tags) × (get_attr ch' (codes "EXTGRP") ≡ none)
unfolding get_tag lookup text_eq
remove_tag_keeps_tag_example =
    remove_tag_keeps_tag (codes "tv") (codes "EXTGRP") (codes "news") one refl
