-- ===== src/M3u8/Written.antt =====
-- What the encoder writes for all tracks.
use mathlib.Core.List.{append-nil}
use majmun.Base.{
  ℕ, ◌≡◌, refl, ap, sym, ◌∙◌, Bool, true, false, Option, none, some, List, [], ◌∷◌, ◌++◌,
}
use majmun.Base.Lists.{All}
use majmun.Base.Maps.{Map}
use majmun.Base.Text.{Text}
use majmun.Channel.{Track}
use majmun.M3u8.Encoder.{M3uEncoder, header_line, encode, encode_all, new_encoder, EncodeError}
use majmun.M3u8.Lined.{text_of}
use majmun.M3u8.Printed.{
  joined, text_of-append, encode-track_lines, encode-header_line, track_lines, all_lines,
  file_lines, HasUri,
}

module _ (sort : List Text → List Text) (show_length : ℕ → Text) (accepts : Text → Text → Bool)
    (takes : (written line : Text) → accepts written line ≡ true) where
  abbrev lines : Track → List Text
  lines t = track_lines sort show_length t

  abbrev many : List Track → List Text
  many ts = all_lines sort show_length ts

  encode_all-encode :
      (t : Track) (ts : List Track) (e d : M3uEncoder)
      → encode accepts sort show_length t e ≡ (d, none)
      → encode_all accepts sort show_length (t ∷ ts) e ≡ encode_all accepts sort show_length ts d
  unfolding encode_all
  encode_all-encode t ts e d h =
      let rest : M3uEncoder → M3uEncoder × Option EncodeError =
        encode_all accepts sort show_length ts in
      ap (λ r. elim r.1 [ some y ↦ (r.0, some y) | none ↦ rest r.0 ]) h

  encode_all-all_lines :
      (ts : List Track) (e : M3uEncoder)
      → All HasUri ts
      → e.closed ≡ false
      → e.header_written ≡ true
      → encode_all accepts sort show_length ts e
        ≡ (record e { written = e.written ++ text_of (many ts) }, none)
  unfolding encode_all
  encode_all-all_lines [] e h opened headed =
      ap (λ t. (record e { written = t }, none)) (sym (append-nil e.written))
  encode_all-all_lines (t ∷ ts) e h opened headed =
      let d = record e { written = e.written ++ text_of (lines t); header_written = true } in
      encode_all-encode t ts e d
        (encode-track_lines sort show_length accepts takes t h.0.0 e h.0.1 opened headed)
      ∙ encode_all-all_lines ts d h.1 opened refl
      ∙ ap (λ b. (record d { written = d.written ++ text_of (many ts); header_written = b }, none))
          (sym headed)
      ∙ ap (λ s. (record e { written = s }, none))
          (joined sort show_length accepts takes e.written (lines t) (many ts))

  -- What a fresh encoder writes.
  pub encode_all-new_encoder :
      (attrs : Map Text) (ts : List Track)
      → All HasUri ts
      → (e : M3uEncoder) × (encode_all accepts sort show_length ts (new_encoder attrs) ≡ (e, none))
        × (e.written ≡ text_of (file_lines sort show_length attrs ts))
  unfolding encode_all new_encoder
  encode_all-new_encoder attrs [] h = (new_encoder attrs, refl, refl)
  encode_all-new_encoder attrs (t ∷ ts) h =
      let first = header_line sort show_length attrs ∷ lines t in
      let d = record (new_encoder attrs) { written = text_of first; header_written = true } in
      (
        record d { written = text_of first ++ text_of (many ts) },
        encode_all-encode t ts (new_encoder attrs) d (
              encode-header_line sort show_length accepts takes t h.0.0 (new_encoder attrs) h.0.1
                refl refl)
            ∙ encode_all-all_lines ts d h.1 refl refl,
        sym (text_of-append first (many ts)),
      )
