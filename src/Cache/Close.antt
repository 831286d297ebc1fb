-- ===== src/Cache/Close.antt =====
-- internal/httpclient/reader.go: Read and Close, with the plumbing between the answer, the client and
-- the cached file.
pub mod Written
pub mod Committed
pub mod Closed
use majmun.Base.{
  ℕ, ◌+◌, Bool, true, false, not, ◌&&◌, ◌||◌, Option, none, some, List, [], ◌∷◌, ◌++◌,
}
use majmun.Base.Lists.{length}
use majmun.Base.Tests.{if◌then◌else◌}
use majmun.Base.Text.{Text, text_eq}
use majmun.Cache.Disk.{write_file, close_file, remove_file, rename_file, append_file}
use majmun.Cache.Http.{Response, World}
use majmun.Cache.Reader.{
  ReadCloser, cached_file, cached_gzip, gunzip_of_tee, gzip_tee, tee_of_gunzip, plain_tee, Reader,
  Error, not_closed, not_renamed, Session, is_download_complete, cleanup, save_metadata,
}

-- One call of Read: the bytes that it takes from the body of the answer, those that it returns, and
-- whether it returns io.EOF.
pub record Chunk : Type 0 where
  pub taken : Text
  pub returned : Text
  pub is_eof : Bool

unfoldable pub file_write : Text → Session → Session
file_write s t = record t { disk = append_file t.reader.tmp_file_path s t.disk }

-- Where the bytes of a chunk go on their way.
unfoldable pub tee : Option ReadCloser → Chunk → Session → Session
unfolding file_write
tee none c s = s
tee (some cached_file) c s = s
tee (some cached_gzip) c s = s
tee (some gunzip_of_tee) c s = file_write c.taken s
tee (some tee_of_gunzip) c s = file_write c.returned s
tee (some plain_tee) c s = file_write c.taken s
tee (some gzip_tee) c s =
    let written : Option Text = elim s.reader.gzip_writer [
      | none ↦ none
      | some t ↦ some (t ++ c.taken)
    ] in
    record s { reader = record s.reader { gzip_writer = written } }

-- Does the reader stand behind the counter of the body?
unfoldable pub counts : Option ReadCloser → Bool
counts none = false
counts (some cached_file) = false
counts (some cached_gzip) = false
counts (some _) = true

unfoldable pub read : Chunk → Session → Session
unfolding tee counts
read c s =
    let t = tee s.reader.read_closer c s in
    let counted = if counts t.reader.read_closer then length c.taken else 0 in
    record t {
      reader = record t.reader {
        downloaded_bytes = t.reader.downloaded_bytes + counted;
        eof_reached = t.reader.eof_reached || c.is_eof;
      };
    }

unfoldable pub read_all : List Chunk → Session → Session
read_all [] s = s
read_all (c ∷ cs) s = read_all cs (read c s)

module _ (w : World) where
  -- What gzip.Writer.Close writes out.
  unfoldable pub flush_gzip : Session → Session
  unfolding file_write
  flush_gzip s = elim s.reader.gzip_writer [
    | none ↦ s
    | some t ↦
        if w.refuses write_file s.reader.tmp_file_path then s else file_write (w.compress t) s
  ]

  -- Does the Close of the ReadCloser succeed?
  reader_closed : Reader → Option ReadCloser → Bool
  reader_closed r none = true
  reader_closed r (some cached_file) = not (w.refuses close_file r.file_path)
  reader_closed r (some plain_tee) = w.body_closes
  reader_closed r (some gzip_tee) = not (w.refuses write_file r.tmp_file_path)
  reader_closed r (some _) = w.reader_closes

  -- An os.File that is closed already refuses a second Close.
  file_closed : Reader → Option ReadCloser → Bool
  file_closed r (some cached_file) = false
  file_closed r (some cached_gzip) = not (w.refuses close_file r.file_path)
  file_closed r none = not (w.refuses close_file r.file_path)
  file_closed r (some _) = not (w.refuses close_file r.tmp_file_path)

  -- Does every closer return nil?
  unfoldable pub all_closed : Reader → Bool
  unfolding reader_closed file_closed
  all_closed r =
      elim r.origin_response [ none ↦ true | some resp ↦ w.body_closes ]
      && reader_closed r r.read_closer
      && elim r.gzip_writer [ none ↦ true | some t ↦ not (w.refuses write_file r.tmp_file_path) ]
      && (if r.file then file_closed r r.read_closer else true)

  -- The move of the downloaded file over the cached one.
  unfoldable pub commit_file : Session → Session × Option Error
  commit_file s =
      let r = s.reader in
      if text_eq r.tmp_file_path []
      then (s, none)
      else let d = remove_file w.refuses r.file_path s.disk in
        elim (rename_file w.refuses r.tmp_file_path r.file_path d) [
          | none ↦ (record s { disk = d }, some not_renamed)
          | some d' ↦ (record s { disk = d' }, none)
        ]

  -- What is left to do after a step: undo everything if it failed.
  unfoldable pub or_cleanup :
      Session × Option Error → (Session → Session × Option Error) → Session × Option Error
  unfolding cleanup
  or_cleanup (s, none) next = next s
  or_cleanup (s, some e) next = (cleanup w s, some e)

  unfoldable pub close : Session → Session × Option Error
  unfolding flush_gzip commit_file or_cleanup save_metadata cleanup is_download_complete
  close s0 =
      let s = flush_gzip s0 in
      if not (all_closed s.reader)
      then (s, some not_closed)
      else if not s.reader.cache_write
      then (s, none)
      else if not (is_download_complete s.reader)
      then (cleanup w s, none)
      else or_cleanup (commit_file s) (λ t. or_cleanup (save_metadata w t) (λ u. (u, none)))
