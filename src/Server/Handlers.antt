-- ===== src/Server/Handlers.antt =====
-- internal/server/handlers.go: the handlers of playlists, guides and files. What a streamer writes up
-- to its end or its error is a parameter, and so is the answer of another server.
use majmun.Base.{ℕ, Bool, Option, none, some, [], ◌∷◌}
use majmun.Base.Maps.{Map, insert}
use majmun.Base.Tests.{ltb, if◌then◌else◌}
use majmun.Base.Text.{Text, codes}
use majmun.Server.Proxy.{handle_stream_proxy}
use majmun.Server.Stream.{Exchange, Surroundings}
use majmun.Server.Writer.{Writer, set_header, write, write_header, copy, http_error}
use majmun.Urlgen.Types.{Data, RequestType}

abbrev pub playlist_headers : Map Text
playlist_headers =
    (codes "Content-Type", codes "application/x-mpegurl")
    ∷ (codes "Cache-Control", codes "no-cache")
    ∷ []

abbrev pub epg_headers : Map Text
epg_headers =
    (codes "Content-Type", codes "application/xml") ∷ (codes "Cache-Control", codes "no-cache") ∷ []

abbrev pub epg_gzip_headers : Map Text
epg_gzip_headers =
    (codes "Content-Type", codes "application/gzip")
    ∷ (codes "Cache-Control", codes "no-cache")
    ∷ (codes "Content-Disposition", codes "attachment; filename=\"epg.xml.gz\"")
    ∷ []

unfoldable pub set_headers : Map Text → Writer → Writer
unfolding set_header
set_headers [] w = w
set_headers ((name, value) ∷ m) w = set_headers m (set_header name value w)

module _ (status_text : ℕ → Text) where
  -- A streamer's WriteTo: what it wrote, and whether it returned no error.
  unfoldable pub write_listing : Map Text → Text → Bool → Writer → Writer
  unfolding set_headers copy http_error
  write_listing headers written no_error w =
      let v = copy written (set_headers headers w) in
      if no_error then v else elim written [ [] ↦ http_error (status_text 502) 502 v | c ∷ s ↦ v ]

  unfoldable pub handle_playlist : Text → Bool → Writer → Writer
  unfolding write_listing
  handle_playlist written no_error w = write_listing playlist_headers written no_error w

  -- `channels` is whether GetAllChannels returned no error.
  unfoldable pub handle_epg : Bool → Text → Bool → Writer → Writer
  unfolding write_listing
  handle_epg channels written no_error w =
      if channels
      then write_listing epg_headers written no_error w
      else http_error (status_text 502) 502 w

  unfoldable pub handle_epg_gz : Bool → Text → Bool → Writer → Writer
  unfolding write_listing
  handle_epg_gz channels written no_error w =
      if channels
      then write_listing epg_gzip_headers written no_error w
      else http_error (status_text 502) 502 w

  unfoldable pub handle_healthz : Writer → Writer
  unfolding write write_header
  handle_healthz w = write (status_text 200) (write_header 200 w)

pub record FileResponse : Type 0 where
  pub status_code : ℕ
  pub header : Map Text
  pub body : Text

module _ (status_text : ℕ → Text) where
  add_headers : Map Text → Writer → Writer
  add_headers [] w = w
  add_headers ((name, value) ∷ m) w =
      add_headers m (record w { header = insert name value w.header })

  -- `request` is whether http.NewRequest takes the URL, `answer` what Do returns.
  unfoldable pub handle_file_proxy : Bool → Option FileResponse → Writer → Writer
  unfolding add_headers copy http_error
  handle_file_proxy request answer w =
      if request
      then elim answer [
        | none ↦ http_error (status_text 502) 502 w
        | some resp ↦
            if ltb 299 resp.status_code
            then http_error (status_text resp.status_code) resp.status_code w
            else copy resp.body (add_headers resp.header w)
      ]
      else http_error (codes "Failed to create request") 502 w

  handle_by_type :
      RequestType → Surroundings → Data → Bool → Option FileResponse → Exchange → Exchange
  unfolding handle_file_proxy handle_stream_proxy
  handle_by_type RequestType.file e d request answer x = record x {
    writer = handle_file_proxy request answer x.writer;
  }
  handle_by_type RequestType.stream e d request answer x =
      handle_stream_proxy e d.stream_data.streams x

  -- A link carries no other type of request, since Decrypt made it from one that CreateURL made.
  unfoldable pub handle_proxy :
      Surroundings → Data → Bool → Option FileResponse → Exchange → Exchange
  unfolding handle_by_type
  handle_proxy e d request answer x = handle_by_type d.request_type e d request answer x
