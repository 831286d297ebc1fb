-- ===== src/Cache/Open.antt =====
-- internal/httpclient/store.go and transport.go: the reader that is opened for an entry, and the
-- answer that the client gets.
pub mod Started
use majmun.Base.{ℕ, Bool, true, false, not, Option, none, some, List, [], ◌∷◌, ◌++◌}
use majmun.Base.Lists.{take}
use majmun.Base.Maps.{Map, lookup}
use majmun.Base.Result.{Result, ok, err}
use majmun.Base.Tests.{◌==◌, if◌then◌else◌}
use majmun.Base.Text.{Text, codes}
use majmun.Cache.Disk.{Int64, open_file, Disk}
use majmun.Cache.Http.{Header, header_get, header_set, Method, Request, Response, World}
use majmun.Cache.Reader.{
  ReadCloser, cached_file, cached_gzip, gunzip_of_tee, gzip_tee, tee_of_gunzip, plain_tee, Reader,
  Error, not_opened, bad_gzip, bad_request, not_fetched, unexpected_status, Session, saved_headers,
  get_cached_headers, create_cache_file, is_gzipped_content,
}
use majmun.Cache.Status.{Status, valid, renewed, expired, not_found, check_cache_status}
use majmun.Common.{hex}

module _ (w : World) where
  unfoldable pub new_cached_reader : Session → Session × Result Error ReadCloser
  new_cached_reader s = elim (lookup s.reader.file_path s.disk) [
    | none ↦ (s, err not_opened)
    | some c ↦
        if w.refuses open_file s.reader.file_path
        then (s, err not_opened)
        else let t = record s { reader = record s.reader { file = true } } in
          if not s.reader.compression
          then (t, ok cached_file)
          else if w.gzip_header
          then (t, ok cached_gzip)
          else (t, err bad_gzip)
  ]

  -- The plumbing by whether the cache is compressed and whether the answer is.
  unfoldable pub plumbing : Bool → Bool → Session → Session × Result Error ReadCloser
  plumbing true true s = if w.gzip_header then (s, ok gunzip_of_tee) else (s, err bad_gzip)
  plumbing true false s =
      (record s { reader = record s.reader { gzip_writer = some [] } }, ok gzip_tee)
  plumbing false true s = if w.gzip_header then (s, ok tee_of_gunzip) else (s, err bad_gzip)
  plumbing false false s = (s, ok plain_tee)

  -- The rest behind createCacheFile.
  unfoldable pub with_file : Response → Session × Option Error → Session × Result Error ReadCloser
  unfolding plumbing is_gzipped_content
  with_file resp (t, some x) = (t, err x)
  with_file resp (t, none) = plumbing t.reader.compression (is_gzipped_content w t.reader resp) t

  unfoldable pub download : Response → Session → Session × Result Error ReadCloser
  unfolding with_file create_cache_file
  download resp s =
      let r = record s.reader {
        origin_response = some resp;
        content_type = header_get resp.header (codes "Content-Type");
        content_length = resp.content_length;
      } in
      with_file resp (create_cache_file w (record s { reader = r }))

  unfoldable pub new_caching_reader : Session → Session × Result Error ReadCloser
  unfolding download
  new_caching_reader s =
      if not (w.new_request s.reader.url)
      then (s, err bad_request)
      else elim (w.send (record {
        method = Method.get;
        url = s.reader.url;
        if_modified_since = none;
        if_none_match = none;
      })) [
        | none ↦ (s, err not_fetched)
        | some resp ↦
            if resp.status_code == 200
            then download resp s
            else (s, err (unexpected_status resp.status_code))
      ]

  with_read_closer : Session × Result Error ReadCloser → Session × Option Error
  with_read_closer (s, err e) = (s, some e)
  with_read_closer (s, ok rc) =
      (record s { reader = record s.reader { read_closer = some rc } }, none)

  open_by : Status → Session → Session × Option Error
  unfolding with_read_closer new_cached_reader new_caching_reader
  open_by valid s = with_read_closer (new_cached_reader s)
  open_by renewed s = with_read_closer (new_cached_reader s)
  open_by expired s = with_read_closer (new_caching_reader s)
  open_by not_found s = with_read_closer (new_caching_reader s)

  unfoldable pub open_reader : Session → Session × Option Error
  unfolding open_by check_cache_status
  open_reader s = let (t, st) = check_cache_status w s in open_by st t

pub record Options : Type 0 where
  pub ttl : ℕ
  pub retention : Int64
  pub compression : Bool

abbrev pub compressed_extension : Text
compressed_extension = codes ".gz"

abbrev pub uncompressed_extension : Text
uncompressed_extension = codes ".cache"

abbrev pub meta_extension : Text
meta_extension = codes ".meta"

-- `key` is Options.key, `sha256` is sha256.Sum256.
module _ (key : Options → Text) (sha256 : Text → List ℕ) where
  entry_name : Text → Options → Text
  unfolding hex
  entry_name url opt = hex (take 16 (sha256 (url ++ (b'\n' ∷ key opt))))

  unfoldable pub fresh_reader : Text → Options → Reader
  unfolding entry_name
  fresh_reader url opt =
      let name = entry_name url opt in
      let path =
        name ++ (if opt.compression then compressed_extension else uncompressed_extension) in
      record {
        url = url;
        name = name;
        file_path = path;
        tmp_file_path = path ++ codes ".tmp";
        meta_path = name ++ meta_extension;
        tmp_meta_path = name ++ meta_extension ++ codes ".tmp";
        read_closer = none;
        cache_write = false;
        file = false;
        gzip_writer = none;
        origin_response = none;
        content_length = none;
        downloaded_bytes = 0;
        content_type = [];
        ttl = opt.ttl;
        retention = opt.retention;
        compression = opt.compression;
        eof_reached = false;
      }

  unfoldable pub new_reader : World → Text → Options → Disk → Session × Option Error
  unfolding fresh_reader open_reader
  new_reader w url opt d = open_reader w (record { reader = fresh_reader url opt; disk = d })

  set_all : Map Text → Header → Header
  unfolding header_set
  set_all [] h = h
  set_all ((name, value) ∷ m) h = set_all m (header_set name value h)

  -- The header of the answer.
  answer_header : World → Session → Header
  unfolding set_all saved_headers get_cached_headers
  answer_header w s = elim s.reader.origin_response [
    | some resp ↦ set_all (saved_headers s.reader.origin_response) []
    | none ↦ set_all (get_cached_headers w s) []
  ]

  unfoldable pub round_trip : World → Text → Options → Disk → Session × Result Error Header
  unfolding new_reader answer_header
  round_trip w url opt d =
      let (s, e) = new_reader w url opt d in
      (s, elim e [ some x ↦ err x | none ↦ ok (answer_header w s) ])
