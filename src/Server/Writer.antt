-- ===== src/Server/Writer.antt =====
-- What the server uses of http.ResponseWriter. `status_text` is http.StatusText.
use majmun.Base.{ℕ, Option, none, some, [], ◌∷◌, ◌++◌}
use majmun.Base.Maps.{Map, insert, delete}
use majmun.Base.Text.{Text, codes}

pub record Writer : Type 0 where
  pub header : Map Text
  pub status : Option ℕ
  pub body : Text

unfoldable pub set_header : Text → Text → Writer → Writer
set_header name value w = record w { header = insert name value w.header }

-- The first status that is written counts.
unfoldable pub write_header : ℕ → Writer → Writer
write_header code w = elim w.status [ none ↦ record w { status = some code } | some c ↦ w ]

unfoldable pub write : Text → Writer → Writer
unfolding write_header
write s w = let v = write_header 200 w in record v { body = v.body ++ s }

-- io.Copy calls Write for each piece that it reads, so not at all for an empty source.
unfoldable pub copy : Text → Writer → Writer
unfolding write
copy [] w = w
copy (c ∷ s) w = write (c ∷ s) w

-- http.Error.
unfoldable pub http_error : Text → ℕ → Writer → Writer
unfolding write set_header
http_error text code w =
    let h = insert (codes "X-Content-Type-Options") (codes "nosniff") (
      insert (codes "Content-Type") (codes "text/plain; charset=utf-8")
        (delete (codes "Content-Length") w.header)) in
    write (text ++ b'\n' ∷ []) (write_header code (record w { header = h }))
