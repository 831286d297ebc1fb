-- ===== src/Cache/Status/Renewal.antt =====
-- What a renewal does with the headers that were saved.
use majmun.Base.{◌≡◌, ◌≢◌, refl, ap, ◌∙◌, true, false, Option, none, some, arith, List, [], ◌∷◌}
use majmun.Base.Maps.{lookup}
use majmun.Base.Tests.{if◌then◌else◌}
use majmun.Base.Text.{Text, codes, contains, text_eq, text_eq_iff}
use majmun.Cache.Disk.{exists, read_metadata, Metadata, json, Content, open_file, stat}
use majmun.Cache.Http.{World, header_get, Header, Response}
use majmun.Cache.Reader.Saved.{RefusesNothing, save_metadata-IsSaved}
use majmun.Cache.Reader.{
  Session, Reader, save_metadata, new_metadata, saved_headers, forwarded, forwarded_headers,
}
use majmun.Cache.Status.{
  renewed, expired, check_cache_status, try_renewal, is_modified_since, is_fresh, expires_later,
  value_at, parsed_time,
}

-- A header that is not among those forwarded is not saved.
forwarded_absent :
    (names : List Text) (h : Header) (name : Text)
    → contains names name ≡ false
    → lookup name (forwarded names h) ≡ none
unfolding forwarded lookup contains
forwarded_absent [] h name absent = refl
forwarded_absent (n ∷ names) h name absent = ground (arith, forwarded_absent names h name)

no_etag : (o : Option Response) → lookup (codes "Etag") (saved_headers o) ≡ none
unfolding saved_headers lookup contains text_eq
no_etag none = refl
no_etag (some resp) = forwarded_absent forwarded_headers resp.header (codes "Etag") refl

forwarded_blank :
    (names : List Text) (h : Header) (name : Text)
    → header_get h name ≡ []
    → lookup name (forwarded names h) ≡ none
unfolding forwarded lookup
forwarded_blank [] h name blank = refl
forwarded_blank (n ∷ names) h name blank =
    ground (arith, forwarded_blank names h name, text_eq_iff n name)

try_renewal_bare :
    (w : World) (m : Metadata) (s : Session)
    → lookup (codes "Last-Modified") m.headers ≡ none
    → lookup (codes "Etag") m.headers ≡ none
    → try_renewal w m s ≡ (s, expired)
unfolding try_renewal is_modified_since value_at parsed_time text_eq
try_renewal_bare w m s undated untagged =
    rw (undated, untagged, try_renewal, value_at, is_modified_since, parsed_time) refl

-- Metadata saved from an answer with no Last-Modified is never renewed, and no request is sent for
-- it, whatever ETag the answer had.
pub try_renewal_forgets_etag :
    (w0 w : World) (r : Reader) (resp : Response) (s : Session)
    → r.origin_response ≡ some resp
    → header_get resp.header (codes "Last-Modified") ≡ []
    → try_renewal w (new_metadata w0 r) s ≡ (s, expired)
unfolding new_metadata saved_headers
try_renewal_forgets_etag w0 w r resp s answer blank =
    try_renewal_bare w (new_metadata w0 r) s
      (ap (λ o. lookup (codes "Last-Modified") (saved_headers o)) answer
        ∙ forwarded_blank forwarded_headers resp.header (codes "Last-Modified") blank)
      (no_etag r.origin_response)

module _ (w : World) (free : RefusesNothing w.refuses) where
  -- A look at an entry that is no longer fresh.
  stale_lem :
      (s : Session) (m : Metadata) (c : Content)
      → lookup s.reader.file_path s.disk ≡ some c
      → lookup s.reader.meta_path s.disk ≡ some (json m)
      → is_fresh w s.reader.ttl m ≡ false
      → check_cache_status w s
        ≡ (if expires_later w m then ((save_metadata w s).0, renewed) else try_renewal w m s)
  unfolding check_cache_status exists read_metadata
  stale_lem s m c file meta stale = ground (
    arith,
    free stat s.reader.meta_path,
    free stat s.reader.file_path,
    free open_file s.reader.meta_path,
  )

-- Metadata with no headers is past saving.
bare_expires :
    (w : World) (m : Metadata) (s : Session)
    → m.headers ≡ []
    → (expires_later w m ≡ false) × (try_renewal w m s ≡ (s, expired))
unfolding expires_later lookup
bare_expires w m s bare = (
  rw (ap (lookup (codes "Expires")) bare, expires_later) refl,
  try_renewal_bare w m s (ap (lookup (codes "Last-Modified")) bare)
      (ap (lookup (codes "Etag")) bare),
)

-- An entry with its metadata on the disk, and a reader of it that has asked for nothing yet.
pub record IsStored (s : Session) (m : Metadata) : Type 0 where
  pub content : Content
  pub has_file : lookup s.reader.file_path s.disk ≡ some content
  pub has_meta : lookup s.reader.meta_path s.disk ≡ some (json m)
  pub unasked : s.reader.origin_response ≡ none
  pub named : s.reader.tmp_meta_path ≢ []
  pub meta_apart : s.reader.meta_path ≢ s.reader.tmp_meta_path
  pub file_apart : s.reader.meta_path ≢ s.reader.file_path
  pub tmp_apart : s.reader.tmp_meta_path ≢ s.reader.file_path

module _ (w : World) (free : RefusesNothing w.refuses) (later : World)
    (later_free : RefusesNothing later.refuses) where
  -- An entry that is renewed since its Expires header lies ahead loses its headers: once the time to
  -- live has passed again it is expired, with no request that could renew it.
  pub expires_renewal_forgets :
      (s : Session) (m : Metadata)
      → IsStored s m
      → is_fresh w s.reader.ttl m ≡ false
      → expires_later w m ≡ true
      → is_fresh later s.reader.ttl (new_metadata w s.reader) ≡ false
      → ((check_cache_status w s).1 ≡ renewed)
        × (check_cache_status later (record s { disk = (check_cache_status w s).0.disk })
            ≡ (record s { disk = (check_cache_status w s).0.disk }, expired))
  unfolding new_metadata saved_headers
  expires_renewal_forgets s m h stale ahead stale_again =
      let saved = save_metadata-IsSaved w free s h.named h.meta_apart in
      let first : check_cache_status w s ≡ ((save_metadata w s).0, renewed) =
        stale_lem w free s m h.content h.has_file h.has_meta stale ∙ rw ahead refl in
      let t = record s { disk = (save_metadata w s).0.disk } in
      let bare : saved_headers s.reader.origin_response ≡ [] = rw (h.unasked, saved_headers) refl in
      let file : lookup s.reader.file_path t.disk ≡ some h.content = ground (
        arith,
        saved.files s.reader.file_path,
        text_eq_iff s.reader.meta_path s.reader.file_path,
        text_eq_iff s.reader.tmp_meta_path s.reader.file_path,
      ) in
      let meta : lookup s.reader.meta_path t.disk ≡ some (json (new_metadata w s.reader)) = ground (
        arith,
        saved.files s.reader.meta_path,
        text_eq_iff s.reader.meta_path s.reader.meta_path,
      ) in
      let second : check_cache_status later t ≡ (t, expired) =
        stale_lem later later_free t (new_metadata w s.reader) h.content file meta stale_again
        ∙ (let gone = bare_expires later (new_metadata w s.reader) t bare in rw gone.0 gone.1) in
      rw first (refl, second)
