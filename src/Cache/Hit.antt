-- ===== src/Cache/Hit.antt =====
-- What a later request finds of a download, and the end of a reader of a cached file.
use majmun.Base.{ℕ, ◌+◌, ◌*◌, ◌<◌, ◌≤◌, ◌≡◌, true, false, none, some, arith, List}
use majmun.Base.Maps.{lookup}
use majmun.Base.Text.{Text, text_eq_iff}
use majmun.Cache.Close.Closed.{IsOpen, stored, close_commits}
use majmun.Cache.Close.Committed.{Succeeds}
use majmun.Cache.Close.{Chunk, read_all, close}
use majmun.Cache.Disk.{
  json, other, second, unix, unix_epoch, time_unix, exists, read_metadata, stat, open_file,
}
use majmun.Cache.Http.{World}
use majmun.Cache.Open.{open_reader, new_cached_reader}
use majmun.Cache.Reader.Saved.{RefusesNothing}
use majmun.Cache.Reader.{
  ReadCloser, cached_file, Session, Reader, is_download_complete, new_metadata,
}
use majmun.Cache.Status.Fresh.{IsYoung, check_cache_status-valid}
use majmun.Cache.Status.{valid, check_cache_status}

-- The time that metadata keeps is in whole seconds: at most a second before the time of the call.
pub time_unix-unix_bounds :
    (now : ℕ)
    → unix_epoch * second ≤ now
    → (time_unix (unix now) ≤ now) × (now < time_unix (unix now) + second)
time_unix-unix_bounds now h = omega arith

-- A reader without compression that has been opened on the cached file.
abbrev pub opened : Reader → Reader
opened r = record r { file = true; read_closer = some cached_file }

module _ (w : World) (ok : Succeeds w) (rc : ReadCloser) (written : Text) (cs : List Chunk)
    (s : Session) (h : IsOpen rc written s)
    (complete : is_download_complete (read_all cs s).reader ≡ true) (later : World)
    (free : RefusesNothing later.refuses) (r : Reader)
    (same_file : r.file_path ≡ s.reader.file_path)
    (same_meta : r.meta_path ≡ s.reader.meta_path) where
  abbrev entry : Session
  entry = record { reader = r; disk = (close w (read_all cs s)).0.disk }

  entry_file :
      lookup r.file_path entry.disk ≡ some (other (stored w rc written s.reader.gzip_writer cs))
  entry_file = ground (
    arith,
    (close_commits w ok rc written cs s h complete).1 r.file_path,
    text_eq_iff s.reader.file_path r.file_path,
  )

  entry_meta : lookup r.meta_path entry.disk ≡ some (json (new_metadata w s.reader))
  entry_meta = ground (
    arith,
    (close_commits w ok rc written cs s h complete).1 r.meta_path,
    h.names.file_meta,
    text_eq_iff s.reader.file_path r.meta_path,
    text_eq_iff s.reader.meta_path r.meta_path,
  )

  entry-IsYoung :
      unix_epoch * second ≤ w.now
      → 0 < r.ttl
      → later.now + second ≤ w.now + r.ttl
      → IsYoung later entry (new_metadata w s.reader)
  unfolding new_metadata exists read_metadata
  entry-IsYoung epoch positive soon = record {
    has_meta = ground (arith, entry_meta, free stat r.meta_path);
    has_file = ground (arith, entry_file, free stat r.file_path);
    reads = ground (arith, entry_meta, free open_file r.meta_path);
    positive = positive;
    younger = omega (arith, time_unix-unix_bounds w.now epoch);
  }

  -- After a complete download with no refused call, a reader without compression and with the same
  -- names, that comes before its time to live has passed, less the second to which times are kept,
  -- opens the file that holds what was stored of the download, asks no server and leaves the disk as
  -- it is.
  pub open_reader-download :
      unix_epoch * second ≤ w.now
      → 0 < r.ttl
      → later.now + second ≤ w.now + r.ttl
      → r.compression ≡ false
      → (open_reader later entry ≡ (record entry { reader = opened r }, none))
        × (lookup r.file_path entry.disk
            ≡ some (other (stored w rc written s.reader.gzip_writer cs)))
  unfolding open_reader new_cached_reader
  open_reader-download epoch positive soon plain =
      let young = entry-IsYoung epoch positive soon in
      let found : check_cache_status later entry ≡ (entry, valid) =
        (check_cache_status-valid later entry).1 (new_metadata w s.reader, young) in
      (rw (found, open_reader) (ground (arith, entry_file, free open_file r.file_path)), entry_file)
