-- ===== src/Cache/Reader.antt =====
-- internal/httpclient/reader.go and storage.go: a reader of one entry, from its creation on.
pub mod Saved
use majmun.Base.{
  ℕ, suc, zero, ◌+◌, ◌-◌, ◌/◌, ◌%◌, ◌^◌, Bool, true, false, not, ◌&&◌, ◌||◌, Option, none, some,
  List, [], ◌∷◌, ◌++◌,
}
use majmun.Base.Lists.{length}
use majmun.Base.Maps.{Map, lookup, insert}
use majmun.Base.Result.{Result, ok, err}
use majmun.Base.Suffix.{ends_with}
use majmun.Base.Tests.{◌==◌, if◌then◌else◌}
use majmun.Base.Text.{Text, codes, text_eq}
use majmun.Cache.Disk.{
  Int64, is_negative, second, unix, Metadata, json, Disk, encode, write_file, close_file,
  remove_file, create_file, rename_file, read_metadata, append_file,
}
use majmun.Cache.Http.{Header, header_get, Response, World}

-- The plumbing behind Read: what the bytes of an answer pass through.
pub data ReadCloser : Type 0 where
  cached_file cached_gzip : ReadCloser
  gunzip_of_tee gzip_tee tee_of_gunzip plain_tee : ReadCloser

pub record Reader : Type 0 where
  pub url : Text
  pub name : Text
  pub file_path : Text
  pub tmp_file_path : Text
  pub meta_path : Text
  pub tmp_meta_path : Text
  pub read_closer : Option ReadCloser
  pub cache_write : Bool
  pub file : Bool
  pub gzip_writer : Option Text
  pub origin_response : Option Response
  pub content_length : Option ℕ
  pub downloaded_bytes : ℕ
  pub content_type : Text
  pub ttl : ℕ
  pub retention : Int64
  pub compression : Bool
  pub eof_reached : Bool

pub data Error : Type 0 where
  not_created not_encoded not_closed not_renamed : Error
  not_opened bad_gzip bad_request not_fetched : Error
  unexpected_status : ℕ → Error

pub record Session : Type 0 where
  pub reader : Reader
  pub disk : Disk

abbrev pub forwarded_headers : List Text
forwarded_headers =
    codes "Cache-Control"
    ∷ codes "Expires"
    ∷ codes "Last-Modified"
    ∷ codes "ETag"
    ∷ codes "Content-Type"
    ∷ []

-- The loop over forwardedHeaders.
unfoldable pub forwarded : List Text → Header → Map Text
forwarded [] h = []
forwarded (name ∷ names) h =
    let rest = forwarded names h in
    elim (header_get h name) [ [] ↦ rest | c ∷ value ↦ (name, c ∷ value) ∷ rest ]

unfoldable pub saved_headers : Option Response → Map Text
unfolding forwarded
saved_headers none = []
saved_headers (some resp) = forwarded forwarded_headers resp.header

-- int64(d / time.Second), which rounds towards 0.
unfoldable pub whole_seconds : Int64 → Int64
whole_seconds d = if is_negative d then (2 ^ 64 - (2 ^ 64 - d) / second) % 2 ^ 64 else d / second

module _ (w : World) where
  unfoldable pub new_metadata : Reader → Metadata
  unfolding saved_headers whole_seconds
  new_metadata r = record {
    cached_at = unix w.now;
    retention_seconds = some (whole_seconds r.retention);
    headers = saved_headers r.origin_response;
  }

  unfoldable pub write_metadata : Reader → Disk → Disk × Option Error
  unfolding new_metadata
  write_metadata r d = elim (create_file w.refuses r.tmp_meta_path d) [
    | none ↦ (d, some not_created)
    | some d1 ↦
        if w.refuses encode r.tmp_meta_path
        then (d1, some not_encoded)
        else let d2 = insert r.tmp_meta_path (json (new_metadata r)) d1 in
          if w.refuses close_file r.tmp_meta_path
          then (d2, some not_closed)
          else let d3 = remove_file w.refuses r.meta_path d2 in
            elim (rename_file w.refuses r.tmp_meta_path r.meta_path d3) [
              | none ↦ (d3, some not_renamed)
              | some d4 ↦ (d4, none)
            ]
  ]

  unfoldable pub save_metadata : Session → Session × Option Error
  unfolding write_metadata
  save_metadata s =
      let tmp =
        if text_eq s.reader.tmp_meta_path []
        then s.reader.meta_path ++ codes ".tmp"
        else s.reader.tmp_meta_path in
      let r = record s.reader { tmp_meta_path = tmp } in
      let (d, e) = write_metadata r (remove_file w.refuses tmp s.disk) in
      (record { reader = r; disk = d }, e)

  unfoldable pub cleanup : Session → Session
  cleanup s =
      let r = s.reader in
      let d1 = remove_file w.refuses r.file_path s.disk in
      let d2 = remove_file w.refuses r.tmp_file_path d1 in
      let d3 = remove_file w.refuses r.meta_path d2 in
      record s { disk = remove_file w.refuses r.tmp_meta_path d3 }

  unfoldable pub get_cached_headers : Session → Map Text
  get_cached_headers s = elim (read_metadata w.refuses s.reader.meta_path s.disk) [
    | none ↦ []
    | some m ↦ m.headers
  ]

  unfoldable pub create_cache_file : Session → Session × Option Error
  create_cache_file s =
      let tmp =
        if text_eq s.reader.tmp_file_path []
        then s.reader.file_path ++ codes ".tmp"
        else s.reader.tmp_file_path in
      let r = record s.reader { tmp_file_path = tmp } in
      let d = remove_file w.refuses tmp s.disk in
      elim (create_file w.refuses tmp d) [
        | none ↦ (record { reader = r; disk = d }, some not_created)
        | some d' ↦
            (record { reader = record r { cache_write = true; file = true }; disk = d' }, none)
      ]

  unfoldable pub is_gzipped_content : Reader → Response → Bool
  is_gzipped_content r resp =
      let content_type = header_get resp.header (codes "Content-Type") in
      text_eq content_type (codes "application/gzip")
      || text_eq content_type (codes "application/x-gzip")
      || text_eq (header_get resp.header (codes "Content-Encoding")) (codes "gzip")
      || ends_with (codes ".gz") r.url

unfoldable pub is_download_complete : Reader → Bool
is_download_complete r = elim r.content_length [
  | none ↦ r.eof_reached
  | some n ↦ elim n [ zero ↦ r.eof_reached | suc k ↦ r.downloaded_bytes == suc k && r.eof_reached ]
]
