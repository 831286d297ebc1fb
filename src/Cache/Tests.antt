-- ===== src/Cache/Tests.antt =====
-- One entry through its life: a download of two bytes, a hit, a renewal, a clean-up.
use majmun.Base.{
  ℕ, ◌+◌, ◌-◌, ◌*◌, ◌≡◌, refl, Bool, true, false, Option, none, some, List, [], ◌∷◌, ◌++◌, arith,
  inl, inr,
}
use majmun.Base.Maps.{lookup}
use majmun.Base.Text.{Text, codes}
use majmun.Cache.Clean.Live.{HasEntry, clean_expired-HasEntry}
use majmun.Cache.Clean.Swept.{IsKept, clean_expired-IsKept}
use majmun.Cache.Clean.{clean_expired, day}
use majmun.Cache.Close.Closed.{IsOpen, stored, close_commits, close_drops}
use majmun.Cache.Close.Committed.{Succeeds, after_commit, after_cleanup}
use majmun.Cache.Close.{Chunk, read_all, close}
use majmun.Cache.Disk.{Metadata, Content, json, other, Disk, second, unix_epoch}
use majmun.Cache.Hit.{opened, open_reader-download}
use majmun.Cache.Http.{World, Request, Response}
use majmun.Cache.Open.Started.{fresh_reader-HasNames, new_caching_reader-IsOpen}
use majmun.Cache.Open.{Options, fresh_reader, new_caching_reader, open_reader}
use majmun.Cache.Reader.{Session, Reader, plain_tee, new_metadata, is_download_complete}
use majmun.Cache.Status.Renewal.{expires_renewal_forgets}
use majmun.Cache.Status.{expired, renewed, check_cache_status, try_renewal}
use majmun.Samples.{sha}

abbrev answer : Response
answer = record {
  status_code = 200;
  header = (codes "Etag", codes "x") ∷ (codes "Expires", codes "e") ∷ [];
  content_length = some 2;
}

-- The hour of `n` hours after the year 2000.
abbrev hours : ℕ → ℕ
hours n = (unix_epoch + 946_684_800 + n * 3600) * second

abbrev at : ℕ → World
at n = record {
  now = hours n;
  parse_time = λ s. some (hours 9);
  new_request = λ url. true;
  send = λ req. some answer;
  refuses = λ call path. false;
  body_closes = true;
  reader_closes = true;
  gzip_header = true;
  compress = λ t. t;
}

at-Succeeds : (n : ℕ) → Succeeds (at n)
at-Succeeds n = record { free = λ call path. refl; body = refl; gunzip = refl }

abbrev options : Options
options = record { ttl = 7200 * second; retention = day; compression = false }

abbrev first_reader : Reader
first_reader = fresh_reader (λ o. []) sha (codes "u") options

abbrev begun : Session
begun = record { reader = first_reader; disk = (codes "x", other []) ∷ [] }

abbrev downloading : Session
downloading =
    let t = (new_caching_reader (at 0) begun).0 in
    record t { reader = record t.reader { read_closer = some plain_tee } }

downloading-IsOpen : IsOpen plain_tee [] downloading
unfolding new_caching_reader fresh_reader majmun.Cache.Disk.create_file majmun.Base.Text.text_eq
    majmun.Cache.Http.header_get lookup majmun.Cache.Http.canonical majmun.Base.Suffix.ends_with
downloading-IsOpen =
    new_caching_reader-IsOpen (at 0) begun (new_caching_reader (at 0) begun).0 plain_tee
      (λ call path. refl) (fresh_reader-HasNames (λ o. []) sha (codes "u") options) refl

abbrev whole : List Chunk
whole =
    record { taken = codes "a"; returned = codes "a"; is_eof = false }
    ∷ record { taken = codes "b"; returned = codes "b"; is_eof = true }
    ∷ []

abbrev half : List Chunk
half = record { taken = codes "a"; returned = codes "a"; is_eof = false } ∷ []

close_commits_example :
    ((close (at 0) (read_all whole downloading)).1 ≡ none)
    × ((p : Text)
        → lookup p (close (at 0) (read_all whole downloading)).0.disk
          ≡ after_commit
              (at 0)
              downloading.reader
              (other (stored (at 0) plain_tee [] downloading.reader.gzip_writer whole))
              (lookup p downloading.disk)
              p)
unfolding is_download_complete read_all new_caching_reader fresh_reader majmun.Cache.Close.read
    majmun.Cache.Disk.create_file majmun.Base.Text.text_eq majmun.Cache.Http.header_get lookup
    majmun.Cache.Http.canonical majmun.Base.Suffix.ends_with
close_commits_example =
    close_commits (at 0) (at-Succeeds 0) plain_tee [] whole downloading downloading-IsOpen refl

close_drops_example :
    ((close (at 0) (read_all half downloading)).1 ≡ none)
    × ((p : Text)
        → lookup p (close (at 0) (read_all half downloading)).0.disk
          ≡ after_cleanup downloading.reader (lookup p downloading.disk) p)
unfolding is_download_complete read_all new_caching_reader fresh_reader majmun.Cache.Close.read
    majmun.Cache.Disk.create_file majmun.Base.Text.text_eq majmun.Cache.Http.header_get lookup
    majmun.Cache.Http.canonical majmun.Base.Suffix.ends_with
close_drops_example =
    close_drops (at 0) (at-Succeeds 0) plain_tee [] half downloading downloading-IsOpen refl

abbrev stored_entry : Session
stored_entry = record {
  reader = first_reader;
  disk = (close (at 0) (read_all whole downloading)).0.disk;
}

open_reader-download_example :
    (open_reader (at 1) stored_entry ≡ (record stored_entry { reader = opened first_reader }, none))
    × (lookup first_reader.file_path stored_entry.disk
        ≡ some (other (stored (at 0) plain_tee [] downloading.reader.gzip_writer whole)))
unfolding is_download_complete read_all new_caching_reader fresh_reader majmun.Cache.Close.read
    majmun.Cache.Disk.create_file majmun.Base.Text.text_eq majmun.Cache.Http.header_get lookup
    majmun.Cache.Http.canonical majmun.Base.Suffix.ends_with
open_reader-download_example =
    open_reader-download (at 0) (at-Succeeds 0) plain_tee [] whole downloading downloading-IsOpen
      refl (at 1) (λ call path. refl) first_reader refl refl (omega arith) (omega arith)
      (omega arith) refl

-- An entry of noon of the first day, and a file that does not belong here.
abbrev saved : Metadata
saved = record {
  cached_at = 946_684_800;
  retention_seconds = some 86_400;
  headers = (codes "Expires", codes "e") ∷ [];
}

abbrev directory : Disk
directory =
    (codes "n.gz", other []) ∷ (codes "n.meta", json saved) ∷ (codes "n.gz.tmp", other []) ∷ []

clean_expired-HasEntry_example :
    HasEntry
      (codes "n")
      (codes ".gz")
      saved
      (other [])
      (clean_expired (λ call path. false) (hours 2) (codes "cache") directory).0
unfolding majmun.Cache.Clean.outlived lookup majmun.Base.Text.text_eq
clean_expired-HasEntry_example =
    clean_expired-HasEntry (λ call path. false) (hours 2) (codes "n") (codes ".gz") saved (other [])
      (codes "cache") directory (inl refl) refl (omega arith)
      (record { has_meta = refl; has_data = refl })

clean_expired-IsKept_example :
    (lookup (codes "n.meta") directory ≡ some (json saved))
    × IsKept (hours 2) directory (codes "n.meta") (json saved)
unfolding clean_expired majmun.Cache.Clean.clean_loop majmun.Cache.Clean.clean_file
    majmun.Base.Suffix.ends_with lookup majmun.Base.Text.text_eq majmun.Base.Suffix.trim_suffix
    majmun.Cache.Disk.read_metadata majmun.Cache.Disk.remove_checked majmun.Base.Maps.delete
clean_expired-IsKept_example =
    clean_expired-IsKept (λ call path. false) (hours 2) (codes "cache") directory (codes "n.meta")
      (json saved) refl refl

-- The reader of the entry, an hour before and two hours after its Expires header.
abbrev stale : Session
stale = record {
  reader = record first_reader {
    file_path = codes "n.gz";
    tmp_file_path = codes "n.gz.tmp";
    meta_path = codes "n.meta";
    tmp_meta_path = codes "n.meta.tmp";
  };
  disk = directory;
}

expires_renewal_forgets_example :
    ((check_cache_status (at 8) stale).1 ≡ renewed)
    × (check_cache_status (at 11) (record stale { disk = (check_cache_status (at 8) stale).0.disk })
        ≡ (record stale { disk = (check_cache_status (at 8) stale).0.disk }, expired))
unfolding fresh_reader lookup majmun.Base.Text.text_eq majmun.Cache.Status.is_fresh
    majmun.Cache.Status.expires_later new_metadata
expires_renewal_forgets_example =
    expires_renewal_forgets (at 8) (λ call path. refl) (at 11) (λ call path. refl) stale saved
      (record {
        content = other [];
        has_file = refl;
        has_meta = refl;
        unasked = refl;
        named = λ e. ground arith;
        meta_apart = λ e. ground arith;
        file_apart = λ e. ground arith;
        tmp_apart = λ e. ground arith;
      })
      refl refl refl
