-- ===== src/Cache/Reader/Saved.antt =====
-- What SaveMetadata and Cleanup leave on a disk that refuses no call.
use majmun.Base.{◌≡◌, ◌≢◌, refl, ap, ◌∙◌, ◌||◌, false, none, some, [], arith}
use majmun.Base.Maps.{lookup, insert, delete, lookup-insert, lookup-delete}
use majmun.Base.Tests.{if◌then◌else◌}
use majmun.Base.Text.{Text, text_eq, text_eq_iff}
use majmun.Cache.Disk.{
  Content, json, other, Disk, Call, Refuses, encode, close_file, create, remove, rename,
  create_file, remove_file, rename_file,
}
use majmun.Cache.Http.{World}
use majmun.Cache.Reader.{Session, Reader, new_metadata, save_metadata, cleanup, write_metadata}

abbrev pub RefusesNothing : Refuses → Type 0
RefusesNothing refuses = (call : Call) (path : Text) → refuses call path ≡ false

module _ (refuses : Refuses) (free : RefusesNothing refuses) where
  pub lookup-remove_file :
      (path p : Text) (d : Disk)
      → lookup p (remove_file refuses path d) ≡ (if text_eq path p then none else lookup p d)
  unfolding remove_file
  lookup-remove_file path p d = rw (free remove path, remove_file) (lookup-delete path p d)

  -- A rename of a file that is there.
  pub rename_file_lem :
      (from to : Text) (d : Disk) (c : Content)
      → lookup from d ≡ some c
      → rename_file refuses from to d ≡ some (insert to c (delete from d))
  unfolding rename_file
  rename_file_lem from to d c h = rw (h, free rename from, rename_file) refl

-- The metadata is under its name, the temporary file is gone, and no other file has changed.
pub record IsSaved (w : World) (s : Session) : Type 0 where
  pub same_reader : (save_metadata w s).0.reader ≡ s.reader
  pub no_error : (save_metadata w s).1 ≡ none
  pub files :
      (p : Text)
      → lookup p (save_metadata w s).0.disk ≡ (
          if text_eq s.reader.meta_path p
          then some (json (new_metadata w s.reader))
          else if text_eq s.reader.tmp_meta_path p
          then none
          else lookup p s.disk)

module _ (w : World) (free : RefusesNothing w.refuses) where
  -- The disk behind the calls of SaveMetadata.
  abbrev after_write : Reader → Disk → Disk
  after_write r d =
      let d1 =
        insert r.tmp_meta_path (json (new_metadata w r)) (insert r.tmp_meta_path (other []) d) in
      insert r.meta_path (json (new_metadata w r))
        (delete r.tmp_meta_path (remove_file w.refuses r.meta_path d1))

  write_metadata_lem :
      (r : Reader) (d : Disk)
      → r.meta_path ≢ r.tmp_meta_path
      → write_metadata w r d ≡ (after_write r d, none)
  unfolding write_metadata create_file rename_file
  write_metadata_lem r d apart =
      let d1 =
        insert r.tmp_meta_path (json (new_metadata w r)) (insert r.tmp_meta_path (other []) d) in
      ground (
        arith,
        free create r.tmp_meta_path,
        free encode r.tmp_meta_path,
        free close_file r.tmp_meta_path,
        free rename r.tmp_meta_path,
        lookup-remove_file w.refuses free r.meta_path r.tmp_meta_path d1,
        lookup-insert r.tmp_meta_path r.tmp_meta_path (json (new_metadata w r))
            (insert r.tmp_meta_path (other []) d),
        text_eq_iff r.meta_path r.tmp_meta_path,
        text_eq_iff r.tmp_meta_path r.tmp_meta_path,
      )

  lookup-after_write :
      (r : Reader) (d : Disk) (p : Text)
      → lookup p (after_write r (remove_file w.refuses r.tmp_meta_path d)) ≡ (
          if text_eq r.meta_path p
          then some (json (new_metadata w r))
          else if text_eq r.tmp_meta_path p
          then none
          else lookup p d)
  lookup-after_write r d p =
      simp (lookup-insert, lookup-delete, lookup-remove_file w.refuses free) (ground arith)

  pub save_metadata-IsSaved :
      (s : Session)
      → s.reader.tmp_meta_path ≢ []
      → s.reader.meta_path ≢ s.reader.tmp_meta_path
      → IsSaved w s
  unfolding save_metadata
  save_metadata-IsSaved s named apart =
      let d = remove_file w.refuses s.reader.tmp_meta_path s.disk in
      let run : save_metadata w s ≡ (record s { disk = after_write s.reader d }, none) =
        ground
          (arith, text_eq_iff s.reader.tmp_meta_path [], write_metadata_lem s.reader d apart) in
      record {
        same_reader = ap (λ r. r.0.reader) run;
        no_error = ap (λ r. r.1) run;
        files = λ p. ap (λ r. lookup p r.0.disk) run ∙ lookup-after_write s.reader s.disk p;
      }

  -- Cleanup removes the four files of the entry and no other.
  pub lookup-cleanup :
      (s : Session) (p : Text)
      → lookup p (cleanup w s).disk ≡ (
          if text_eq s.reader.file_path p
            || text_eq s.reader.tmp_file_path p
            || text_eq s.reader.meta_path p
            || text_eq s.reader.tmp_meta_path p
          then none
          else lookup p s.disk)
  unfolding cleanup
  lookup-cleanup s p = simp (lookup-remove_file w.refuses free) (ground arith)
