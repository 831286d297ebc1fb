-- ===== src/Cache/Status.antt =====
-- internal/httpclient/reader.go, store.go and transport.go: how fresh an entry is, and the reader that
-- is opened for it.
pub mod Fresh
pub mod Renewal
use majmun.Base.{ℕ, ◌-◌, Bool, true, false, not, ◌&&◌, Option, none, some, List, [], ◌∷◌, ◌++◌}
use majmun.Base.Lists.{take}
use majmun.Base.Maps.{Map, lookup}
use majmun.Base.Result.{Result, ok, err}
use majmun.Base.Tests.{ltb, ◌==◌, if◌then◌else◌}
use majmun.Base.Text.{Text, codes, text_eq}
use majmun.Cache.Disk.{Time, time_unix, Metadata, Int64, open_file, Disk, exists, read_metadata}
use majmun.Cache.Http.{Header, header_get, header_set, Method, Request, Response, World}
use majmun.Cache.Reader.{
  ReadCloser, cached_file, cached_gzip, gunzip_of_tee, gzip_tee, tee_of_gunzip, plain_tee, Reader,
  Error, not_created, not_opened, bad_gzip, bad_request, not_fetched, unexpected_status, Session,
  forwarded_headers, saved_headers, save_metadata, get_cached_headers, create_cache_file,
  is_gzipped_content,
}
use majmun.Common.{hex}

pub data Status : Type 0 where
  valid renewed expired not_found : Status

abbrev is_zero : Time → Bool
is_zero t = t == 0

-- A time of a header, the zero time where it is missing or cannot be read.
unfoldable pub parsed_time : (Text → Option Time) → Text → Time
parsed_time parse_time s = if text_eq s [] then 0 else elim (parse_time s) [ none ↦ 0 | some t ↦ t ]

-- m[key], which is the empty string for a missing key.
unfoldable pub value_at : Text → Map Text → Text
value_at key m = elim (lookup key m) [ none ↦ [] | some v ↦ v ]

unfoldable pub renewal_request : Text → Time → Text → Request
renewal_request url last_modified etag = record {
  method = Method.head;
  url = url;
  if_modified_since = if is_zero last_modified then none else some last_modified;
  if_none_match = if text_eq etag [] then none else some etag;
}

module _ (w : World) where
  -- What the answer to a renewal says.
  unfoldable pub says_modified : Time → Response → Bool
  unfolding parsed_time
  says_modified last_modified resp =
      if resp.status_code == 304
      then false
      else if resp.status_code == 200 && not (is_zero last_modified)
      then (let server = header_get resp.header (codes "Last-Modified") in
          if text_eq server []
          then true
          else elim (w.parse_time server) [ none ↦ true | some t ↦ ltb last_modified t ])
      else true

  unfoldable pub is_modified_since : Time → Text → Reader → Reader × Bool
  unfolding renewal_request says_modified
  is_modified_since last_modified etag r =
      if is_zero last_modified && text_eq etag []
      then (r, true)
      else if not (w.new_request r.url)
      then (r, true)
      else elim (w.send (renewal_request r.url last_modified etag)) [
        | none ↦ (r, true)
        | some resp ↦ (record r { origin_response = some resp }, says_modified last_modified resp)
      ]

  unfoldable pub try_renewal : Metadata → Session → Session × Status
  unfolding parsed_time value_at is_modified_since save_metadata
  try_renewal m s =
      let last_modified = parsed_time w.parse_time (value_at (codes "Last-Modified") m.headers) in
      let (r, modified) =
        is_modified_since last_modified (value_at (codes "Etag") m.headers) s.reader in
      let t = record s { reader = r } in
      if modified
      then (t, expired)
      else let (u, e) = save_metadata w t in elim e [ some x ↦ (u, expired) | none ↦ (u, renewed) ]

  -- Does the Expires header of the saved answer lie ahead?
  unfoldable pub expires_later : Metadata → Bool
  expires_later m = elim (lookup (codes "Expires") m.headers) [
    | none ↦ false
    | some e ↦ elim (w.parse_time e) [ none ↦ false | some t ↦ ltb w.now t ]
  ]

  -- time.Since is negative for a time that lies ahead, which `-` makes 0: below any positive TTL too.
  unfoldable pub is_fresh : ℕ → Metadata → Bool
  is_fresh ttl m = ltb 0 ttl && ltb (w.now - time_unix m.cached_at) ttl

  unfoldable pub check_cache_status : Session → Session × Status
  unfolding is_fresh expires_later
  check_cache_status s =
      if not (exists w.refuses s.reader.meta_path s.disk)
      then (s, not_found)
      else if not (exists w.refuses s.reader.file_path s.disk)
      then (s, not_found)
      else elim (read_metadata w.refuses s.reader.meta_path s.disk) [
        | none ↦ (s, not_found)
        | some m ↦
            if is_fresh s.reader.ttl m
            then (s, valid)
            else if expires_later m
            then ((save_metadata w s).0, renewed)
            else try_renewal m s
      ]
