-- ===== src/Cache/Close/Written.antt =====
-- What has been written after any number of reads.
use mathlib.Core.List.{append_assoc, append-nil}
use majmun.Base.{
  ◌+◌, ◌≡◌, ◌≢◌, refl, ap, sym, ◌∙◌, Bool, true, false, ◌||◌, Option, none, some, arith, List, [],
  ◌∷◌, ◌++◌,
}
use majmun.Base.Lists.{length, length-append}
use majmun.Base.Maps.{lookup, lookup-insert}
use majmun.Base.Text.{Text, text_eq_iff}
use majmun.Cache.Close.{Chunk, read, read_all, tee, counts, file_write}
use majmun.Cache.Disk.{other, append_file}
use majmun.Cache.Reader.{ReadCloser, gunzip_of_tee, gzip_tee, tee_of_gunzip, plain_tee, Session}

-- The bytes that go to the file at once, for each way of downloading.
abbrev pub piece : ReadCloser → Chunk → Text
piece gunzip_of_tee c = c.taken
piece tee_of_gunzip c = c.returned
piece plain_tee c = c.taken
piece _ c = []

abbrev pub piped : ReadCloser → List Chunk → Text
piped rc [] = []
piped rc (c ∷ cs) = piece rc c ++ piped rc cs

-- The bytes that come from the body of the answer.
abbrev pub all_taken : List Chunk → Text
all_taken [] = []
all_taken (c ∷ cs) = c.taken ++ all_taken cs

abbrev pub reaches_end : List Chunk → Bool
reaches_end [] = false
reaches_end (c ∷ cs) = c.is_eof || reaches_end cs

abbrev pub gzipped : ReadCloser → Option Text → List Chunk → Option Text
gzipped rc o cs = elim o [
  | none ↦ none
  | some t ↦ elim rc [ gzip_tee ↦ some (t ++ all_taken cs) | _ ↦ some t ]
]

-- A reader that downloads, and what its file holds so far.
pub record IsDownloading (rc : ReadCloser) (written : Text) (s : Session) : Type 0 where
  pub reads : s.reader.read_closer ≡ some rc
  pub counted : counts (some rc) ≡ true
  pub holds : lookup s.reader.tmp_file_path s.disk ≡ some (other written)

-- The reader and the disk after some reads.
pub record HasRead (rc : ReadCloser) (written : Text) (cs : List Chunk) (s t : Session)
    : Type 0 where
  pub reader_is : t.reader ≡ record s.reader {
    downloaded_bytes = s.reader.downloaded_bytes + length (all_taken cs);
    eof_reached = s.reader.eof_reached || reaches_end cs;
    gzip_writer = gzipped rc s.reader.gzip_writer cs;
  }
  pub holds : lookup s.reader.tmp_file_path t.disk ≡ some (other (written ++ piped rc cs))
  pub others : (p : Text) → s.reader.tmp_file_path ≢ p → lookup p t.disk ≡ lookup p s.disk

module _ (written : Text) (c : Chunk) (s : Session) where
  -- A read whose bytes go to the file at once.
  pipe-HasRead :
      (rc : ReadCloser)
      → tee (some rc) c s ≡ file_write (piece rc c) s
      → ((o : Option Text) → gzipped rc o (c ∷ []) ≡ o)
      → IsDownloading rc written s
      → HasRead rc written (c ∷ []) s (read c s)
  unfolding read file_write append_file
  pipe-HasRead rc same plain d =
      let x = piece rc c in
      let path = s.reader.tmp_file_path in
      record {
        reader_is = ground (arith, append-nil c.taken, plain s.reader.gzip_writer);
        holds = ground (
          arith,
          append-nil x,
          lookup-insert path path (other (written ++ x)) s.disk,
          text_eq_iff path path,
        );
        others = λ p apart.
            ground (arith, lookup-insert path p (other (written ++ x)) s.disk, text_eq_iff path p);
      }

  zip-HasRead : IsDownloading gzip_tee written s → HasRead gzip_tee written (c ∷ []) s (read c s)
  unfolding read tee counts
  zip-HasRead d = record {
    reader_is = ground (arith, append-nil c.taken);
    holds = ground (arith, append-nil written);
    others = λ p apart. ground arith;
  }

  read-HasRead :
      (rc : ReadCloser) → IsDownloading rc written s → HasRead rc written (c ∷ []) s (read c s)
  unfolding tee counts
  read-HasRead gunzip_of_tee d = pipe-HasRead gunzip_of_tee refl (λ o. ground arith) d
  read-HasRead tee_of_gunzip d = pipe-HasRead tee_of_gunzip refl (λ o. ground arith) d
  read-HasRead plain_tee d = pipe-HasRead plain_tee refl (λ o. ground arith) d
  read-HasRead gzip_tee d = zip-HasRead d
  read-HasRead rc d = absurd (ground (arith, d.counted))

gzipped_nothing : (rc : ReadCloser) (o : Option Text) → gzipped rc o [] ≡ o
gzipped_nothing gzip_tee (some t) = ap some (append-nil t)
gzipped_nothing rc o = ground arith

read_nothing :
    (rc : ReadCloser) (written : Text) (s : Session)
    → IsDownloading rc written s
    → HasRead rc written [] s s
read_nothing rc written s d = record {
  reader_is = ground (arith, gzipped_nothing rc s.reader.gzip_writer);
  holds = ground (arith, append-nil written);
  others = λ p apart. refl;
}

zipped_on :
    (rc : ReadCloser) (t : Text) (c : Chunk) (cs : List Chunk)
    → gzipped rc (gzipped rc (some t) (c ∷ [])) cs ≡ gzipped rc (some t) (c ∷ cs)
zipped_on gzip_tee t c cs = simp (append-nil, append_assoc)
zipped_on rc t c cs = ground arith

module _ (rc : ReadCloser) (written : Text) (c : Chunk) (cs : List Chunk) (s t u : Session) where
  gzipped_twice : (o : Option Text) → gzipped rc (gzipped rc o (c ∷ [])) cs ≡ gzipped rc o (c ∷ cs)
  gzipped_twice none = refl
  gzipped_twice (some t) = zipped_on rc t c cs

  HasRead-IsDownloading :
      IsDownloading rc written s
      → HasRead rc written (c ∷ []) s t
      → IsDownloading rc (written ++ piece rc c) t
  HasRead-IsDownloading d first = record {
    reads = ap (λ r. r.read_closer) first.reader_is ∙ d.reads;
    counted = d.counted;
    holds =
        ap (λ r. lookup r.tmp_file_path t.disk) first.reader_is
        ∙ first.holds
        ∙ ap (λ x. some (other (written ++ x))) (append-nil (piece rc c));
  }

  HasRead-trans :
      HasRead rc written (c ∷ []) s t
      → HasRead rc (written ++ piece rc c) cs t u
      → HasRead rc written (c ∷ cs) s u
  HasRead-trans first rest =
      let path : t.reader.tmp_file_path ≡ s.reader.tmp_file_path =
        ap (λ r. r.tmp_file_path) first.reader_is in
      record {
        reader_is = ground (
          arith,
          gzipped_twice s.reader.gzip_writer,
          append-nil c.taken,
          length-append c.taken (all_taken cs),
        );
        holds =
            ap (λ p. lookup p u.disk) (sym path)
            ∙ rest.holds
            ∙ ap (λ x. some (other x)) (append_assoc written (piece rc c) (piped rc cs));
        others = λ p apart. rest.others p (λ e. apart (sym path ∙ e)) ∙ first.others p apart;
      }

-- However the answer is cut into reads, what has been written is the concatenation of the pieces.
pub read_all-HasRead :
    (rc : ReadCloser) (written : Text) (cs : List Chunk) (s : Session)
    → IsDownloading rc written s
    → HasRead rc written cs s (read_all cs s)
unfolding read_all
read_all-HasRead rc written [] s d = read_nothing rc written s d
read_all-HasRead rc written (c ∷ cs) s d =
    let first = read-HasRead written c s rc d in
    HasRead-trans rc written c cs s (read c s) (read_all cs (read c s)) first (
      read_all-HasRead rc (written ++ piece rc c) cs (read c s)
        (HasRead-IsDownloading rc written c cs s (read c s) (read_all cs (read c s)) d first))
