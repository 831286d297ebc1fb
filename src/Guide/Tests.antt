-- ===== src/Guide/Tests.antt =====
-- A guide of one known channel with a programme that comes twice, and of a channel that is not known.
use majmun.Base.{ℕ, ◌≡◌, refl, inl, Bool, true, false, Option, none, some, List, [], ◌∷◌}
use majmun.Base.Text.{Text, codes}
use majmun.Base.Maps.{Map}
use majmun.Decoder.{eof, new_lazy_base_decoder}
use majmun.Guide.{GuideChannel, Programme, Epg}
use majmun.Guide.Loops.{Item, channel, programme, Writer, Failure, Guide, write_to}
use majmun.Guide.Invariant.{IsGuide}
use majmun.Guide.Written.{new_writer, write_to-IsGuide}

-- A stand-in for sha256.Sum256 by the first bytes.
abbrev first_bytes : Text → List ℕ
first_bytes s = s

abbrev names : Map Text
names = (codes "one", codes "One") ∷ []

abbrev known : GuideChannel
known = record { id = codes "one"; display_names = []; icons = []; urls = [] }

abbrev unknown : GuideChannel
unknown = record { id = codes "two"; display_names = []; icons = []; urls = [] }

abbrev news : Programme
news = record {
  id = [];
  channel = codes "one";
  start = some (codes "20:00");
  icons = [];
  others = [];
}

abbrev guides : List Guide
guides =
    record {
      subscription = record { name = codes "epg"; file_url = none };
      source_url = [];
      decoder = new_lazy_base_decoder (
          some (record {
            pending = channel unknown ∷ channel known ∷ programme news ∷ programme news ∷ [];
            stop = eof;
          }));
    }
    ∷ []

write_to-IsGuide_example :
    (r : Option Failure × Writer) × (write_to first_bytes
        (λ i. false)
        (λ i. false)
        (λ i. 3)
        (λ i. 0)
        (guides ∷ [])
        (new_writer names)
      ≡ some r)
    × IsGuide names r.1.output
unfolding new_lazy_base_decoder
write_to-IsGuide_example =
    write_to-IsGuide first_bytes (λ i. false) (λ i. false) names (λ i. 3) (λ i. 0) (guides ∷ [])
      (inl refl, tt)

abbrev result : Option (Option Failure × Writer)
result =
    write_to first_bytes (λ i. false) (λ i. false) (λ i. 3) (λ i. 0) (guides ∷ [])
      (new_writer names)

abbrev output_of : Option (Option Failure × Writer) → List Item
output_of none = []
output_of (some r) = r.1.output

two_written :
    output_of result
    ≡ programme news
      ∷ channel (record known { display_names = record { lang = []; value = codes "One" } ∷ [] })
      ∷ []
unfolding write_to new_lazy_base_decoder majmun.Decoder.start_buffering majmun.Guide.Loops.fuel_for
    majmun.Decoder.next_item majmun.Guide.Loops.write_channel majmun.Guide.process_channel
    majmun.Guide.try_candidates majmun.Guide.candidate_ids majmun.Base.Maps.lookup
    majmun.Guide.Loops.polled majmun.Guide.new_streamer majmun.Base.Text.text_eq
    majmun.Guide.Loops.write_programme majmun.Guide.process_programme majmun.Base.Maps.insert
    majmun.Common.generate_hash_id majmun.Guide.programme_key majmun.Guide.channel_names_match
    majmun.Base.Text.contains majmun.Guide.process_icons majmun.Guide.renamed
    majmun.Decoder.add_to_buffer majmun.Guide.display_values
two_written = refl
