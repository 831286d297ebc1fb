-- ===== src/Processor/Tests.antt =====
-- Two channels of one tvg-id become one.
use majmun.Base.{ℕ, ◌≡◌, refl, Bool, true, false, Option, none, some, List, [], ◌∷◌, arith}
use majmun.Base.Text.{Text, codes}
use majmun.Base.Result.{ok, err}
use majmun.Store.{Store}
use mathlib.Core.List.{Perm}
use majmun.Processor.{Processor, group_streams, process_channels, new_processor}
use majmun.Processor.Streams.{all_of}
use majmun.Processor.Turn.{streams_of}
use majmun.Processor.Conserved.{process_channels_conserve}
use majmun.Processor.Unique.{group_streams_unique}
use majmun.Samples.{parse, channel}

abbrev twins : Store
twins = record {
  channels = 0 ∷ 1 ∷ [];
  counter = 2;
  memory = λ n. channel (codes "a") (codes "One") 0;
}

abbrev outcome : List ℕ × Store
outcome = elim (group_streams parse twins) [ ok run ↦ run | err e ↦ ([], twins) ]

one_left : outcome.0 ≡ 0 ∷ []
unfolding group_streams majmun.Processor.process_channels majmun.Processor.process_channel
    majmun.Processor.new_processor majmun.Processor.find_duplicate majmun.Processor.proxied_channel
    majmun.Processor.add_channel majmun.Processor.track_channel majmun.Processor.collect_results
    majmun.Processor.add_stream_to_channel majmun.Processor.create_stream
    majmun.Processor.has_streams majmun.Processor.update_uris majmun.Processor.proxied_uri
    majmun.Store.non_empty majmun.Channel.get_attr majmun.Base.Maps.lookup majmun.Base.Text.text_eq
    majmun.Store.modify majmun.Base.Maps.insert majmun.Base.RefMap.find majmun.Base.RefMap.put
    majmun.Base.RefMap.erase majmun.Store.update majmun.Channel.set_uri
one_left = refl

group_streams_unique_example : ◌≡◌ {A = ℕ} 0 0
unfolding group_streams majmun.Processor.process_channels majmun.Processor.process_channel
    majmun.Processor.new_processor majmun.Processor.find_duplicate majmun.Processor.proxied_channel
    majmun.Processor.add_channel majmun.Processor.track_channel majmun.Processor.collect_results
    majmun.Processor.add_stream_to_channel majmun.Processor.create_stream
    majmun.Processor.has_streams majmun.Processor.update_uris majmun.Processor.proxied_uri
    majmun.Store.non_empty majmun.Channel.get_attr majmun.Base.Maps.lookup majmun.Base.Text.text_eq
    majmun.Store.modify majmun.Base.Maps.insert majmun.Base.RefMap.find majmun.Base.RefMap.put
    majmun.Base.RefMap.erase majmun.Store.update majmun.Channel.set_uri
group_streams_unique_example =
    group_streams_unique parse twins outcome.1 outcome.0 0 0 (codes "a") (λ q v e p. cc p) refl refl
      refl refl refl

abbrev processed : Processor
processed = elim (process_channels parse twins.channels (new_processor twins)) [
  | none ↦ new_processor twins
  | some p ↦ p
]

process_channels_conserve_example :
    Perm (all_of processed.channel_streams) (streams_of twins.memory twins.channels)
unfolding process_channels majmun.Processor.process_channel new_processor
    majmun.Processor.find_duplicate majmun.Processor.proxied_channel majmun.Processor.add_channel
    majmun.Processor.track_channel majmun.Processor.collect_results
    majmun.Processor.add_stream_to_channel majmun.Processor.create_stream
    majmun.Processor.has_streams majmun.Processor.update_uris majmun.Processor.proxied_uri
    majmun.Store.non_empty majmun.Channel.get_attr majmun.Base.Maps.lookup majmun.Base.Text.text_eq
    majmun.Store.modify majmun.Base.Maps.insert majmun.Base.RefMap.find majmun.Base.RefMap.put
    majmun.Base.RefMap.erase majmun.Store.update majmun.Channel.set_uri
process_channels_conserve_example =
    process_channels_conserve parse twins processed ((omega arith, tt), (tt, tt)) refl
