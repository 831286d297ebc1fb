-- ===== src/Decoder/Tests.antt =====
-- Three items, two of them read in the background.
use majmun.Base.{ℕ, ◌≡◌, refl, inl, some, [], ◌∷◌, ◌++◌}
use majmun.Base.Result.{err}
use majmun.Decoder.{
  BaseDecoder, Source, Stop, eof, next_item, start_buffering, new_lazy_base_decoder,
}
use majmun.Decoder.Order.{Taken, contents, done, buffered, taken, Taken-in_order}

abbrev lazy : BaseDecoder ℕ
lazy = new_lazy_base_decoder (some (record { pending = 5 ∷ 6 ∷ 7 ∷ []; stop = eof }))

abbrev open_decoder : BaseDecoder ℕ
open_decoder = (start_buffering 2 lazy).1

abbrev at_end : BaseDecoder ℕ
at_end = (next_item (next_item (next_item open_decoder).1).1).1

lazy-Taken : Taken lazy (5 ∷ 6 ∷ 7 ∷ []) at_end
unfolding next_item start_buffering new_lazy_base_decoder
lazy-Taken = buffered 2 lazy at_end (5 ∷ 6 ∷ 7 ∷ []) (
    taken open_decoder at_end 5 (6 ∷ 7 ∷ []) refl (
      taken (next_item open_decoder).1 at_end 6 (7 ∷ []) refl
        (taken (next_item (next_item open_decoder).1).1 at_end 7 [] refl (done at_end))))

Taken-in_order_example :
    ((5 ∷ 6 ∷ 7 ∷ []) ++ contents at_end ≡ contents lazy)
    × ((s : Source ℕ) (e : Stop)
        → at_end.source ≡ some s
        → (next_item at_end).0 ≡ err e
        → (5 ∷ 6 ∷ 7 ∷ []) ≡ contents lazy)
unfolding new_lazy_base_decoder
Taken-in_order_example = Taken-in_order lazy at_end (5 ∷ 6 ∷ 7 ∷ []) (inl refl) lazy-Taken
