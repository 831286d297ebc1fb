-- ===== src/Cache/Close/Closed.antt =====
-- What Close leaves on the disk after a download, however it was cut into reads.
use majmun.Base.{
  subst, ◌+◌, ◌≡◌, refl, ap, sym, ◌∙◌, true, false, ◌||◌, Option, none, some, arith, List, ◌++◌,
}
use majmun.Base.Lists.{length}
use majmun.Base.Maps.{lookup}
use majmun.Base.Tests.{if◌then◌else◌}
use majmun.Base.Text.{Text, text_eq, text_eq_iff}
use majmun.Cache.Close.Committed.{
  HasNames, Succeeds, zipped_end, lookup-flush_gzip, reader-flush_gzip, close_lem, moved,
  commit_lem, lookup-commit, after_commit, after_cleanup,
}
use majmun.Cache.Close.Written.{
  IsDownloading, read_all-HasRead, piped, gzipped, all_taken, reaches_end,
}
use majmun.Cache.Close.{Chunk, read_all, flush_gzip, commit_file, or_cleanup, close}
use majmun.Cache.Disk.{Content, other}
use majmun.Cache.Http.{World}
use majmun.Cache.Reader.Saved.{save_metadata-IsSaved, lookup-cleanup}
use majmun.Cache.Reader.{
  ReadCloser, Session, is_download_complete, new_metadata, save_metadata, cleanup,
}

-- A reader that downloads an answer into an entry.
pub record IsOpen (rc : ReadCloser) (written : Text) (s : Session) : Type 0 where
  pub downloading : IsDownloading rc written s
  pub names : HasNames s.reader
  pub writes : s.reader.cache_write ≡ true

-- The bytes of the cached file in the end.
abbrev pub stored : World → ReadCloser → Text → Option Text → List Chunk → Text
stored w rc written zip cs = (written ++ piped rc cs) ++ zipped_end w (gzipped rc zip cs)

module _ (w : World) (ok : Succeeds w) (rc : ReadCloser) (written : Text) (cs : List Chunk)
    (s : Session) (h : IsOpen rc written s) where
  after_reads : close w (read_all cs s) ≡ (
      if is_download_complete (read_all cs s).reader
      then or_cleanup w
          (commit_file w (flush_gzip w (read_all cs s)))
          (λ t. or_cleanup w (save_metadata w t) (λ u. (u, none)))
      else (cleanup w (flush_gzip w (read_all cs s)), none))
  after_reads =
      let all = read_all-HasRead rc written cs s h.downloading in
      close_lem w ok (read_all cs s) rc
        (ap (λ r. r.read_closer) all.reader_is ∙ h.downloading.reads) h.downloading.counted
        (ap (λ r. r.cache_write) all.reader_is ∙ h.writes)

  -- The reader behind the reads and the flush.
  final_reader : (flush_gzip w (read_all cs s)).reader ≡ record s.reader {
    downloaded_bytes = s.reader.downloaded_bytes + length (all_taken cs);
    eof_reached = s.reader.eof_reached || reaches_end cs;
    gzip_writer = gzipped rc s.reader.gzip_writer cs;
  }
  final_reader =
      reader-flush_gzip w ok (read_all cs s)
      ∙ (read_all-HasRead rc written cs s h.downloading).reader_is

  final_names : HasNames (flush_gzip w (read_all cs s)).reader
  final_names = subst HasNames (sym final_reader) (record {
    tmp_named = h.names.tmp_named;
    meta_named = h.names.meta_named;
    file_tmp = h.names.file_tmp;
    file_meta = h.names.file_meta;
    file_tmp_meta = h.names.file_tmp_meta;
    tmp_meta = h.names.tmp_meta;
    tmp_tmp_meta = h.names.tmp_tmp_meta;
    meta_tmp_meta = h.names.meta_tmp_meta;
  })

  abbrev content : Content
  content = other (stored w rc written s.reader.gzip_writer cs)

  -- What the flush leaves.
  lookup-flushed :
      (p : Text)
      → lookup p (flush_gzip w (read_all cs s)).disk ≡ (
          if text_eq s.reader.tmp_file_path p
          then some (other (stored w rc written s.reader.gzip_writer cs))
          else lookup p s.disk)
  lookup-flushed p =
      let all = read_all-HasRead rc written cs s h.downloading in
      let path : (read_all cs s).reader.tmp_file_path ≡ s.reader.tmp_file_path =
        ap (λ r. r.tmp_file_path) all.reader_is in
      let holds : lookup (read_all cs s).reader.tmp_file_path (read_all cs s).disk
          ≡ some (other (written ++ piped rc cs)) =
        ap (λ q. lookup q (read_all cs s).disk) path ∙ all.holds in
      ground (
        arith,
        lookup-flush_gzip w ok (read_all cs s) (written ++ piped rc cs) p holds,
        ap (λ r. r.gzip_writer) all.reader_is,
        path,
        text_eq_iff s.reader.tmp_file_path p,
        all.others p,
      )

  final_holds :
      lookup (flush_gzip w (read_all cs s)).reader.tmp_file_path (flush_gzip w (read_all cs s)).disk
      ≡ some content
  final_holds =
      let path = s.reader.tmp_file_path in
      ap (λ r. lookup r.tmp_file_path (flush_gzip w (read_all cs s)).disk) final_reader
      ∙ lookup-flushed path
      ∙ ground (arith, text_eq_iff path path)

  -- Where no call is refused and the download of an open reader is complete, however it was cut into
  -- reads, Close returns no error and leaves all that was written, with what the gzip writer makes of
  -- the rest, under the name of the entry, its metadata of now, and no temporary file of it; all other
  -- files are as before.
  pub close_commits :
      is_download_complete (read_all cs s).reader ≡ true
      → ((close w (read_all cs s)).1 ≡ none)
        × ((p : Text)
            → lookup p (close w (read_all cs s)).0.disk
              ≡ after_commit w s.reader
                  (other (stored w rc written s.reader.gzip_writer cs))
                  (lookup p s.disk)
                  p)
  unfolding new_metadata
  close_commits complete =
      let f = flush_gzip w (read_all cs s) in
      let run : close w (read_all cs s) ≡ save_metadata w (moved w ok f content) =
        after_reads ∙ rw complete (commit_lem w ok f content final_names final_holds) in
      let saved =
        save_metadata-IsSaved w ok.free (moved w ok f content) final_names.meta_named
          final_names.meta_tmp_meta in
      (
        ap (λ r. r.1) run ∙ saved.no_error,
        λ p.
            let committed =
              subst
                (λ r.
                  lookup p (save_metadata w (moved w ok f content)).0.disk
                  ≡ after_commit w r content (lookup p f.disk) p)
                final_reader (lookup-commit w ok f content p final_names) in
            ap (λ r. lookup p r.0.disk) run
            ∙ committed
            ∙ ground (arith, lookup-flushed p, text_eq_iff s.reader.tmp_file_path p),
      )

  -- Where no call is refused and the download of an open reader is not complete, Close returns no
  -- error and leaves nothing of the entry, not even what was cached before; all other files are as
  -- before.
  pub close_drops :
      is_download_complete (read_all cs s).reader ≡ false
      → ((close w (read_all cs s)).1 ≡ none)
        × ((p : Text)
            → lookup p (close w (read_all cs s)).0.disk
              ≡ after_cleanup s.reader (lookup p s.disk) p)
  close_drops partial =
      let f = flush_gzip w (read_all cs s) in
      let run : close w (read_all cs s) ≡ (cleanup w f, none) = after_reads ∙ rw partial refl in
      (
        ap (λ r. r.1) run,
        λ p.
            let cleaned =
              subst (λ r. lookup p (cleanup w f).disk ≡ after_cleanup r (lookup p f.disk) p)
                final_reader (lookup-cleanup w ok.free f p) in
            ap (λ r. lookup p r.0.disk) run
            ∙ cleaned
            ∙ ground (arith, lookup-flushed p, text_eq_iff s.reader.tmp_file_path p),
      )
