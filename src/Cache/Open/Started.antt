-- ===== src/Cache/Open/Started.antt =====
-- A reader that newReader makes has the names of its entry, and one that starts a download is ready
-- to write it.
use mathlib.Core.List.{append_assoc}
use majmun.Base.{
  subst, ℕ, ◌≡◌, ◌≢◌, refl, ap, sym, ◌∙◌, Bool, true, false, none, some, arith, List, [], ◌∷◌, ◌++◌,
  inl, inr,
}
use majmun.Base.Maps.{lookup, insert, lookup-insert}
use majmun.Base.Result.{ok}
use majmun.Base.Tests.{Bool-cases, Option-cases, ◌==◌}
use majmun.Base.Text.{Text, codes, text_eq_iff}
use majmun.Cache.Close.Closed.{IsOpen}
use majmun.Cache.Close.Committed.{HasNames}
use majmun.Cache.Close.{counts}
use majmun.Cache.Disk.{create_file, other, create, remove_file}
use majmun.Cache.Http.{Method, Request, Response, World, header_get}
use majmun.Cache.Open.{Options, fresh_reader, new_caching_reader, plumbing, with_file, download}
use majmun.Cache.Reader.Saved.{RefusesNothing}
use majmun.Cache.Reader.{
  Session, Reader, ReadCloser, gunzip_of_tee, gzip_tee, tee_of_gunzip, plain_tee, create_cache_file,
  is_gzipped_content,
}

append_left : (s a b : Text) → s ++ a ≡ s ++ b → a ≡ b
append_left [] a b h = h
append_left (c ∷ s) a b h = append_left s a b (cc)

append_ne_nil : (s : Text) (c : ℕ) (t : Text) → s ++ c ∷ t ≢ []
append_ne_nil [] c t h = cc
append_ne_nil (d ∷ s) c t h = cc

abbrev tmp : Text
tmp = codes ".tmp"

abbrev meta : Text
meta = codes ".meta"

module _ (name e : Text) (file_tmp : e ≢ e ++ tmp) (file_meta : e ≢ meta)
    (file_tmp_meta : e ≢ meta ++ tmp) (tmp_meta : e ++ tmp ≢ meta)
    (tmp_tmp_meta : e ++ tmp ≢ meta ++ tmp) where
  names_of :
      (r : Reader)
      → r.file_path ≡ name ++ e
      → r.tmp_file_path ≡ (name ++ e) ++ tmp
      → r.meta_path ≡ name ++ meta
      → r.tmp_meta_path ≡ (name ++ meta) ++ tmp
      → HasNames r
  names_of r file tmp_file meta_file tmp_meta_file =
      let tmp_file' : r.tmp_file_path ≡ name ++ (e ++ tmp) = tmp_file ∙ append_assoc name e tmp in
      let tmp_meta_file' : r.tmp_meta_path ≡ name ++ (meta ++ tmp) =
        tmp_meta_file ∙ append_assoc name meta tmp in
      record {
        tmp_named = λ h. append_ne_nil (name ++ e) b'.' _ (sym tmp_file ∙ h);
        meta_named = λ h. append_ne_nil (name ++ meta) b'.' _ (sym tmp_meta_file ∙ h);
        file_tmp = λ h. file_tmp (append_left name _ _ (sym file ∙ h ∙ tmp_file'));
        file_meta = λ h. file_meta (append_left name _ _ (sym file ∙ h ∙ meta_file));
        file_tmp_meta = λ h. file_tmp_meta (append_left name _ _ (sym file ∙ h ∙ tmp_meta_file'));
        tmp_meta = λ h. tmp_meta (append_left name _ _ (sym tmp_file' ∙ h ∙ meta_file));
        tmp_tmp_meta =
            λ h. tmp_tmp_meta (append_left name _ _ (sym tmp_file' ∙ h ∙ tmp_meta_file'));
        meta_tmp_meta = λ h. meta_apart (append_left name _ _ (sym meta_file ∙ h ∙ tmp_meta_file'));
      }
    where
      meta_apart : meta ≢ meta ++ tmp
      meta_apart h = ground arith

-- The names of the files of an entry are told apart by their ends, compressed or not.
pub fresh_reader-HasNames :
    (key : Options → Text) (sha256 : Text → List ℕ) (url : Text) (opt : Options)
    → HasNames (fresh_reader key sha256 url opt)
unfolding fresh_reader
fresh_reader-HasNames key sha256 url opt = elim (Bool-cases opt.compression) [
  | inl zip ↦
      names_of _ (codes ".gz") (λ h. ground arith) (λ h. ground arith) (λ h. ground arith)
        (λ h. ground arith) (λ h. ground arith) (fresh_reader key sha256 url opt) (rw zip refl)
        (rw zip refl) refl refl
  | inr plain ↦
      names_of _ (codes ".cache") (λ h. ground arith) (λ h. ground arith) (λ h. ground arith)
        (λ h. ground arith) (λ h. ground arith) (fresh_reader key sha256 url opt) (rw plain refl)
        (rw plain refl) refl refl
]

-- Readers with the same names.
renamed :
    (r q : Reader)
    → HasNames r
    → r.file_path ≡ q.file_path
    → r.tmp_file_path ≡ q.tmp_file_path
    → r.meta_path ≡ q.meta_path
    → r.tmp_meta_path ≡ q.tmp_meta_path
    → HasNames q
renamed r q h file tmp_file meta_file tmp_meta_file = record {
  tmp_named = λ e. h.tmp_named (tmp_file ∙ e);
  meta_named = λ e. h.meta_named (tmp_meta_file ∙ e);
  file_tmp = λ e. h.file_tmp (file ∙ e ∙ sym tmp_file);
  file_meta = λ e. h.file_meta (file ∙ e ∙ sym meta_file);
  file_tmp_meta = λ e. h.file_tmp_meta (file ∙ e ∙ sym tmp_meta_file);
  tmp_meta = λ e. h.tmp_meta (tmp_file ∙ e ∙ sym meta_file);
  tmp_tmp_meta = λ e. h.tmp_tmp_meta (tmp_file ∙ e ∙ sym tmp_meta_file);
  meta_tmp_meta = λ e. h.meta_tmp_meta (meta_file ∙ e ∙ sym tmp_meta_file);
}

abbrev get_request : Text → Request
get_request url = record {
  method = Method.get;
  url = url;
  if_modified_since = none;
  if_none_match = none;
}

abbrev behind : Session → ReadCloser → Session
behind s rc = record s { reader = record s.reader { read_closer = some rc } }

start-IsOpen :
    (s : Session) (rc : ReadCloser)
    → counts (some rc) ≡ true
    → HasNames s.reader
    → s.reader.cache_write ≡ true
    → lookup s.reader.tmp_file_path s.disk ≡ some (other [])
    → IsOpen rc [] (behind s rc)
start-IsOpen s rc counted names writes holds = record {
  downloading = record { reads = refl; counted = counted; holds = holds };
  names = renamed s.reader (behind s rc).reader names refl refl refl refl;
  writes = writes;
}

same_start :
    (s t : Session) (k rc : ReadCloser)
    → (s ≡ t) × (k ≡ rc)
    → IsOpen k [] (behind s k)
    → IsOpen rc [] (behind t rc)
same_start s t k rc same h =
    subst (λ u. IsOpen rc [] (behind u rc)) same.0 (subst (λ c. IsOpen c [] (behind s c)) same.1 h)

module _ (w : World) (free : RefusesNothing w.refuses) where
  plumbing-IsOpen :
      (zip packed : Bool) (s t : Session) (rc : ReadCloser)
      → HasNames s.reader
      → s.reader.cache_write ≡ true
      → lookup s.reader.tmp_file_path s.disk ≡ some (other [])
      → plumbing w zip packed s ≡ (t, ok rc)
      → IsOpen rc [] (record t { reader = record t.reader { read_closer = some rc } })
  unfolding plumbing counts
  plumbing-IsOpen true true s t rc names writes holds started = elim (Bool-cases w.gzip_header) [
    | inr bad ↦ ground arith
    | inl good ↦
        same_start s t gunzip_of_tee rc (ground arith)
          (start-IsOpen s gunzip_of_tee refl names writes holds)
  ]
  plumbing-IsOpen true false s t rc names writes holds started =
      let s' = record s { reader = record s.reader { gzip_writer = some [] } } in
      same_start s' t gzip_tee rc (ground arith) (
        start-IsOpen s' gzip_tee refl (renamed s.reader s'.reader names refl refl refl refl) writes
          holds)
  plumbing-IsOpen false true s t rc names writes holds started = elim (Bool-cases w.gzip_header) [
    | inr bad ↦ ground arith
    | inl good ↦
        same_start s t tee_of_gunzip rc (ground arith)
          (start-IsOpen s tee_of_gunzip refl names writes holds)
  ]
  plumbing-IsOpen false false s t rc names writes holds started =
      same_start s t plain_tee rc (ground arith) (start-IsOpen s plain_tee refl names writes holds)

  download-IsOpen :
      (resp : Response) (s t : Session) (rc : ReadCloser)
      → HasNames s.reader
      → download w resp s ≡ (t, ok rc)
      → IsOpen rc [] (record t { reader = record t.reader { read_closer = some rc } })
  unfolding with_file download create_cache_file create_file
  download-IsOpen resp s t rc names started =
      let r = record s.reader {
        origin_response = some resp;
        content_type = header_get resp.header (codes "Content-Type");
        content_length = resp.content_length;
      } in
      let d = remove_file w.refuses r.tmp_file_path s.disk in
      let t0 : Session = record {
        reader = record r { cache_write = true; file = true };
        disk = insert r.tmp_file_path (other []) d;
      } in
      let created : create_cache_file w (record s { reader = r }) ≡ (t0, none) =
        ground
          (arith, free create r.tmp_file_path, text_eq_iff r.tmp_file_path [], names.tmp_named) in
      plumbing-IsOpen t0.reader.compression (is_gzipped_content w t0.reader resp) t0 t rc
        (renamed s.reader t0.reader names refl refl refl refl) refl
        (lookup-insert r.tmp_file_path r.tmp_file_path (other []) d
          ∙ ground (arith, text_eq_iff r.tmp_file_path r.tmp_file_path))
        (sym (ap (with_file w resp) created) ∙ started)

-- A download that has started writes to an empty temporary file.
pub new_caching_reader-IsOpen :
    (w : World) (s t : Session) (rc : ReadCloser)
    → RefusesNothing w.refuses
    → HasNames s.reader
    → new_caching_reader w s ≡ (t, ok rc)
    → IsOpen rc [] (record t { reader = record t.reader { read_closer = some rc } })
unfolding new_caching_reader
new_caching_reader-IsOpen w s t rc free names started =
    elim (Bool-cases (w.new_request s.reader.url)) [
      | inr bad ↦ ground arith
      | inl good ↦ elim (Option-cases (w.send (get_request s.reader.url))) [
        | inl lost ↦ ground arith
        | inr (resp, answered) ↦ elim (Bool-cases (resp.status_code == 200)) [
          | inr refused ↦ ground arith
          | inl fine ↦
              download-IsOpen w free resp s t rc names
                (sym (rw (good, answered, fine, new_caching_reader) refl) ∙ started)
        ]
      ]
    ]
