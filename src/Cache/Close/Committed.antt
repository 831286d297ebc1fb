-- ===== src/Cache/Close/Committed.antt =====
-- What Close leaves on the disk after a download.
use mathlib.Core.List.{append-nil}
use majmun.Base.{◌≡◌, ◌≢◌, refl, ap, ◌∙◌, true, ◌||◌, Option, none, some, arith, [], ◌++◌}
use majmun.Base.Maps.{lookup, insert, delete, lookup-insert, lookup-delete}
use majmun.Base.Tests.{if◌then◌else◌}
use majmun.Base.Text.{Text, text_eq, text_eq_iff}
use majmun.Cache.Close.{counts, file_write, flush_gzip, all_closed, commit_file, or_cleanup, close}
use majmun.Cache.Disk.{Content, json, other, append_file, write_file, close_file, remove_file}
use majmun.Cache.Http.{World}
use majmun.Cache.Reader.Saved.{
  RefusesNothing, save_metadata-IsSaved, lookup-remove_file, rename_file_lem,
}
use majmun.Cache.Reader.{
  Error, ReadCloser, Session, Reader, is_download_complete, new_metadata, save_metadata, cleanup,
}

-- The four names of an entry differ, and the temporary ones are set.
pub record HasNames (r : Reader) : Type 0 where
  pub tmp_named : r.tmp_file_path ≢ []
  pub meta_named : r.tmp_meta_path ≢ []
  pub file_tmp : r.file_path ≢ r.tmp_file_path
  pub file_meta : r.file_path ≢ r.meta_path
  pub file_tmp_meta : r.file_path ≢ r.tmp_meta_path
  pub tmp_meta : r.tmp_file_path ≢ r.meta_path
  pub tmp_tmp_meta : r.tmp_file_path ≢ r.tmp_meta_path
  pub meta_tmp_meta : r.meta_path ≢ r.tmp_meta_path

-- What is found under `p` when the content `c` has been committed, where `before` was found.
abbrev pub after_commit : World → Reader → Content → Option Content → Text → Option Content
after_commit w r c before p =
    if text_eq r.file_path p
    then some c
    else if text_eq r.meta_path p
    then some (json (new_metadata w r))
    else if text_eq r.tmp_file_path p || text_eq r.tmp_meta_path p
    then none
    else before

-- What is found under `p` when the entry has been removed.
abbrev pub after_cleanup : Reader → Option Content → Text → Option Content
after_cleanup r before p =
    if text_eq r.file_path p
      || text_eq r.tmp_file_path p
      || text_eq r.meta_path p
      || text_eq r.tmp_meta_path p
    then none
    else before

-- Calls that succeed.
pub record Succeeds (w : World) : Type 0 where
  pub free : RefusesNothing w.refuses
  pub body : w.body_closes ≡ true
  pub gunzip : w.reader_closes ≡ true

abbrev pub zipped_end : World → Option Text → Text
zipped_end w none = []
zipped_end w (some t) = w.compress t

module _ (w : World) (ok : Succeeds w) where
  pub all_closed_lem :
      (r : Reader) (rc : ReadCloser)
      → r.read_closer ≡ some rc
      → counts (some rc) ≡ true
      → all_closed w r ≡ true
  unfolding all_closed counts
  all_closed_lem r rc reads counted = ground (
    arith,
    ok.free write_file r.tmp_file_path,
    ok.free close_file r.tmp_file_path,
    ok.body,
    ok.gunzip,
  )

  pub lookup-flush_gzip :
      (s : Session) (x p : Text)
      → lookup s.reader.tmp_file_path s.disk ≡ some (other x)
      → lookup p (flush_gzip w s).disk ≡ (
          if text_eq s.reader.tmp_file_path p
          then some (other (x ++ zipped_end w s.reader.gzip_writer))
          else lookup p s.disk)
  unfolding flush_gzip file_write append_file
  lookup-flush_gzip s x p holds =
      let path = s.reader.tmp_file_path in
      ground (
        arith,
        ok.free write_file path,
        append-nil x,
        text_eq_iff path p,
        lookup-insert path p (other (x ++ zipped_end w s.reader.gzip_writer)) s.disk,
      )

  pub reader-flush_gzip : (s : Session) → (flush_gzip w s).reader ≡ s.reader
  unfolding flush_gzip file_write
  reader-flush_gzip s = ground arith

  pub close_lem :
      (s : Session) (rc : ReadCloser)
      → s.reader.read_closer ≡ some rc
      → counts (some rc) ≡ true
      → s.reader.cache_write ≡ true
      → close w s ≡ (
          if is_download_complete s.reader
          then or_cleanup w
              (commit_file w (flush_gzip w s))
              (λ t. or_cleanup w (save_metadata w t) (λ u. (u, none)))
          else (cleanup w (flush_gzip w s), none))
  unfolding close
  close_lem s rc reads counted writes =
      ground (arith, reader-flush_gzip s, all_closed_lem s.reader rc reads counted)

  -- The disk behind the move of the file.
  abbrev pub moved : Session → Content → Session
  moved s c = record s {
    disk =
        insert s.reader.file_path c
          (delete s.reader.tmp_file_path (remove_file w.refuses s.reader.file_path s.disk));
  }

  commit_file_lem :
      (s : Session) (c : Content)
      → HasNames s.reader
      → lookup s.reader.tmp_file_path s.disk ≡ some c
      → commit_file w s ≡ (moved s c, none)
  unfolding commit_file
  commit_file_lem s c names holds =
      let r = s.reader in
      ground (
        arith,
        text_eq_iff r.tmp_file_path [],
        lookup-remove_file w.refuses ok.free r.file_path r.tmp_file_path s.disk,
        text_eq_iff r.file_path r.tmp_file_path,
        rename_file_lem w.refuses ok.free r.tmp_file_path r.file_path
            (remove_file w.refuses r.file_path s.disk) c,
        names.tmp_named,
        names.file_tmp,
      )

  lookup-moved :
      (s : Session) (c : Content) (p : Text)
      → lookup p (moved s c).disk ≡ (
          if text_eq s.reader.file_path p
          then some c
          else if text_eq s.reader.tmp_file_path p
          then none
          else lookup p s.disk)
  lookup-moved s c p =
      simp (lookup-insert, lookup-delete, lookup-remove_file w.refuses ok.free) (ground arith)

  -- The commit of a file that has been written in full.
  pub commit_lem :
      (s : Session) (c : Content)
      → HasNames s.reader
      → lookup s.reader.tmp_file_path s.disk ≡ some c
      → or_cleanup w (commit_file w s) (λ t. or_cleanup w (save_metadata w t) (λ u. (u, none)))
        ≡ save_metadata w (moved s c)
  unfolding or_cleanup
  commit_lem s c names holds =
      let saved =
        save_metadata-IsSaved w ok.free (moved s c) names.meta_named names.meta_tmp_meta in
      ap (λ r. or_cleanup w r (λ t. or_cleanup w (save_metadata w t) (λ u. (u, none))))
        (commit_file_lem s c names holds)
      ∙ go (save_metadata w (moved s c)) saved.no_error
    where
      go : (r : Session × Option Error) → r.1 ≡ none → or_cleanup w r (λ u. (u, none)) ≡ r
      go (u, none) e = refl
      go (u, some x) e = cc

  -- What the commit leaves on the disk.
  pub lookup-commit :
      (s : Session) (c : Content) (p : Text)
      → HasNames s.reader
      → lookup p (save_metadata w (moved s c)).0.disk
        ≡ after_commit w s.reader c (lookup p s.disk) p
  lookup-commit s c p names =
      let r = s.reader in
      let saved =
        save_metadata-IsSaved w ok.free (moved s c) names.meta_named names.meta_tmp_meta in
      ground (
        arith,
        saved.files p,
        lookup-moved s c p,
        text_eq_iff r.file_path p,
        text_eq_iff r.meta_path p,
        text_eq_iff r.tmp_meta_path p,
        names.file_meta,
        names.file_tmp_meta,
      )
