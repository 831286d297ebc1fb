-- ===== src/Rules/Fields/Tags.antt =====
-- remove_field with a tag selector: the branch of processRemoveField that calls DeleteAttr.
use majmun.Base.{◌≡◌, none, some, arith}
use majmun.Base.Text.{Text, text_eq_refl}
use majmun.Base.Maps.{lookup-delete}
use majmun.Channel.{Channel, tag, get_attr, get_tag, delete_attr}
use majmun.Rules.Fields.{process_remove_field}
use majmun.Rules.Conditions.{passes}

-- Removing a tag that a channel has leaves all its tags, and deletes the attribute of the same name.
pub remove_tag_keeps_tag :
    (client key value : Text) (ch : Channel)
    → get_tag ch key ≡ some value
    → let ch' =
        process_remove_field client
          (record { selector = record { type = tag; value = key }; condition = none })
          ch in
      (ch'.track.tags ≡ ch.track.tags) × (get_attr ch' key ≡ none)
unfolding process_remove_field passes delete_attr get_attr
remove_tag_keeps_tag client key value ch h =
    (ground arith, ground (arith, lookup-delete key key ch.track.attrs, text_eq_refl key))
