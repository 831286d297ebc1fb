-- ===== src/Cache/Clean/Live.antt =====
-- The clean-up keeps an entry whose retention has not passed.
use majmun.Base.{
  ◌≡◌, ◌≢◌, refl, sym, ap, ◌∙◌, inl, inr, Bool, true, false, none, some, List, [], ◌∷◌, ◌++◌,
}
use majmun.Base.Maps.{lookup}
use majmun.Base.Suffix.{ends_with, trim_suffix, ends_with-append, trim_suffix-append, append_cancel}
use majmun.Base.Tests.{Option-cases, Bool-cases}
use majmun.Base.Text.{Text}
use majmun.Cache.Clean.Removal.{
  IsData, data_extension-split, remove_checked-Keeps, remove_existing-cases,
  data_extension-compressed, data_extension-uncompressed, data_extension-meta,
}
use majmun.Cache.Clean.Retained.{IsRetained, outlived_iff}
use majmun.Cache.Clean.{
  data_extension, done, ◌then_remove◌, remove_entry, clean_data, clean_meta, clean_file, clean_loop,
  clean_expired, outlived, names,
}
use majmun.Cache.Disk.{
  Time, Disk, Refuses, Content, json, Metadata, remove_checked, read_metadata, open_file, read_dir,
}
use majmun.Cache.Open.{compressed_extension, uncompressed_extension, meta_extension}

-- An entry with its data and its metadata.
pub record HasEntry (name extension : Text) (m : Metadata) (c : Content) (d : Disk) : Type 0 where
  pub has_meta : lookup (name ++ meta_extension) d ≡ some (json m)
  pub has_data : lookup (name ++ extension) d ≡ some c

data_extension-IsData :
    (name extension : Text) → IsData extension → data_extension (name ++ extension) ≡ some extension
data_extension-IsData name extension (inl e) = rw e (data_extension-compressed name)
data_extension-IsData name extension (inr e) = rw e (data_extension-uncompressed name)

module _ (n name : Text) where
  data-ne-meta : (e : Text) → IsData e → n ++ e ≢ name ++ meta_extension
  data-ne-meta e is_data same =
      cc (data_extension-IsData n e is_data, data_extension-meta name, ap data_extension same)

  data-ne-data :
      (e extension : Text) → IsData e → IsData extension → n ≢ name → n ++ e ≢ name ++ extension
  data-ne-data e extension is_data is_data' apart same =
      let alike : e ≡ extension = cc (
        data_extension-IsData n e is_data,
        data_extension-IsData name extension is_data',
        ap data_extension same,
      ) in
      apart (append_cancel n name e (same ∙ ap (λ t. name ++ t) (sym alike)))

module _ (refuses : Refuses) (now : Time) (name extension : Text) (m : Metadata) (c : Content)
    (is_data : IsData extension) (readable : refuses open_file (name ++ meta_extension) ≡ false)
    (young : outlived now m ≡ false) where
  remove-HasEntry :
      (path : Text) (d : Disk)
      → path ≢ name ++ meta_extension
      → path ≢ name ++ extension
      → HasEntry name extension m c d
      → HasEntry name extension m c (done (remove_checked refuses path d) d).0
  remove-HasEntry path d apart apart' h = record {
    has_meta = (remove_checked-Keeps refuses path d).others _ apart ∙ h.has_meta;
    has_data = (remove_checked-Keeps refuses path d).others _ apart' ∙ h.has_data;
  }

  -- A file with the extension of data that has no metadata.
  orphan-HasEntry :
      (file e : Text) (d : Disk)
      → data_extension file ≡ some e
      → trim_suffix file e ++ e ≡ file
      → lookup (trim_suffix file e ++ meta_extension) d ≡ none
      → HasEntry name extension m c d
      → HasEntry name extension m c (done (remove_checked refuses file d) d).0
  orphan-HasEntry file e d found split missing h =
      remove-HasEntry file d (λ same. cc (found, ap data_extension same, data_extension-meta name))
        (λ same.
          let alike : extension ≡ e =
            cc (found, ap data_extension same, data_extension-IsData name extension is_data) in
          let own : trim_suffix file e ≡ name =
            append_cancel (trim_suffix file e) name e (split ∙ same ∙ ap (λ t. name ++ t) alike) in
          cc (missing, ap (λ t. lookup (t ++ meta_extension) d) own, h.has_meta))
        h

  then-HasEntry :
      (r : Disk × Bool) (path : Text)
      → path ≢ name ++ meta_extension
      → path ≢ name ++ extension
      → HasEntry name extension m c r.0
      → HasEntry name extension m c (◌then_remove◌ refuses r path).0
  then-HasEntry (d, false) path apart apart' h = h
  then-HasEntry (d, true) path apart apart' h = remove-HasEntry path d apart apart' h

  remove_entry-HasEntry :
      (n : Text) (d : Disk)
      → n ≢ name
      → HasEntry name extension m c d
      → HasEntry name extension m c (remove_entry refuses n d).0
  unfolding remove_entry
  remove_entry-HasEntry n d apart h =
      then-HasEntry _ (n ++ meta_extension)
        (λ same. apart (append_cancel n name meta_extension same))
        (λ same. data-ne-meta name n extension is_data (sym same))
        (then-HasEntry _ (n ++ uncompressed_extension)
          (data-ne-meta n name uncompressed_extension (inr refl))
          (data-ne-data n name uncompressed_extension extension (inr refl) is_data apart)
          (then-HasEntry (d, true) (n ++ compressed_extension)
            (data-ne-meta n name compressed_extension (inl refl))
            (data-ne-data n name compressed_extension extension (inl refl) is_data apart) h))

  -- A file that is no data cannot be the data of the entry.
  other-HasEntry :
      (file : Text) (d : Disk)
      → data_extension file ≡ none
      → file ≢ name ++ meta_extension
      → HasEntry name extension m c d
      → HasEntry name extension m c (done (remove_checked refuses file d) d).0
  other-HasEntry file d found apart h =
      remove-HasEntry file d apart
        (λ same. cc (found, ap data_extension same, data_extension-IsData name extension is_data)) h

  clean_data-HasEntry :
      (file e : Text) (d : Disk)
      → data_extension file ≡ some e
      → HasEntry name extension m c d
      → HasEntry name extension m c (clean_data refuses file e d).0
  unfolding clean_data
  clean_data-HasEntry file e d found h =
      elim (Option-cases (lookup (trim_suffix file e ++ meta_extension) d)) [
        | inl missing ↦
            rw (missing, clean_data)
              (elim (remove_existing-cases refuses file d) [
                | inl fails ↦ rw fails h
                | inr same ↦
                    rw same (
                      orphan-HasEntry file e d found (data_extension-split file e found).1 missing
                        h)
              ])
        | inr (x, there) ↦ rw (there, clean_data) h
      ]

  read-HasEntry :
      (d : Disk)
      → HasEntry name extension m c d
      → read_metadata refuses (name ++ meta_extension) d ≡ some m
  unfolding read_metadata
  read-HasEntry d h = rw (h.has_meta, readable, read_metadata) refl

  clean_meta-HasEntry :
      (file : Text) (d : Disk)
      → data_extension file ≡ none
      → ends_with meta_extension file ≡ true
      → HasEntry name extension m c d
      → HasEntry name extension m c (clean_meta refuses now file d).0
  unfolding clean_meta
  clean_meta-HasEntry file d found meta h = elim (Option-cases (read_metadata refuses file d)) [
    | inl unread ↦
        rw (unread, clean_meta)
          (other-HasEntry file d found
            (λ same. cc (unread, ap (λ t. read_metadata refuses t d) same, read-HasEntry d h)) h)
    | inr (x, found_meta) ↦
        rw (found_meta, clean_meta)
          (elim (Bool-cases (outlived now x)) [
            | inr stays ↦ rw stays h
            | inl goes ↦ rw goes (
                remove_entry-HasEntry (trim_suffix file meta_extension) d
                  (λ own.
                    let same : file ≡ name ++ meta_extension =
                      sym (trim_suffix-append file meta_extension meta)
                      ∙ ap (λ t. t ++ meta_extension) own in
                    cc (
                      goes,
                      young,
                      found_meta,
                      ap (λ t. read_metadata refuses t d) same,
                      read-HasEntry d h,
                    ))
                  h)
          ])
  ]

  clean_file-HasEntry :
      (file : Text) (d : Disk)
      → HasEntry name extension m c d
      → HasEntry name extension m c (clean_file refuses now file d).0
  unfolding clean_file
  clean_file-HasEntry file d h = elim (Option-cases (data_extension file)) [
    | inr (e, found) ↦ rw (found, clean_file) (clean_data-HasEntry file e d found h)
    | inl found ↦
        rw (found, clean_file)
          (elim (Bool-cases (ends_with meta_extension file)) [
            | inl meta ↦ rw meta (clean_meta-HasEntry file d found meta h)
            | inr no_meta ↦ rw no_meta (
                other-HasEntry file d found
                  (λ same. cc (
                    no_meta,
                    ap (ends_with meta_extension) same,
                    ends_with-append name meta_extension,
                  ))
                  h)
          ])
  ]

  clean_loop-HasEntry :
      (files : List Text) (d : Disk)
      → HasEntry name extension m c d
      → HasEntry name extension m c (clean_loop refuses now files d).0
  unfolding clean_loop
  clean_loop-HasEntry [] d h = h
  clean_loop-HasEntry (file ∷ files) d h =
      let kept = clean_file-HasEntry file d h in
      elim (Bool-cases (clean_file refuses now file d).1) [
        | inl go_on ↦ rw go_on (clean_loop-HasEntry files (clean_file refuses now file d).0 kept)
        | inr stop ↦ rw stop kept
      ]

module _ (refuses : Refuses) (now : Time) (name extension : Text) (m : Metadata) (c : Content) where
  -- An entry whose metadata can be read and whose retention has not passed keeps its metadata and its
  -- data through a clean-up, whatever else the directory holds and whichever removals fail.
  pub clean_expired-HasEntry :
      (dir : Text) (d : Disk)
      → IsData extension
      → refuses open_file (name ++ meta_extension) ≡ false
      → IsRetained now m
      → HasEntry name extension m c d
      → HasEntry name extension m c (clean_expired refuses now dir d).0
  unfolding clean_expired
  clean_expired-HasEntry dir d is_data readable young h = elim (Bool-cases (refuses read_dir dir)) [
    | inl fails ↦ rw fails h
    | inr lists ↦ rw lists (
        clean_loop-HasEntry refuses now name extension m c is_data readable
          ((outlived_iff now m).1 young) (names d) d h)
  ]
