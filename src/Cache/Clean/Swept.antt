-- ===== src/Cache/Clean/Swept.antt =====
-- What a clean-up that succeeds leaves in the directory.
use majmun.Base.{
  ◌≡◌, ◌⊎◌, inl, inr, Bool, true, false, Option, none, some, List, [], ◌∷◌, ◌++◌, arith, subst,
}
use majmun.Base.Maps.{lookup}
use majmun.Base.Suffix.{ends_with, trim_suffix, trim_suffix-append}
use majmun.Base.Tests.{Option-cases, Bool-cases}
use majmun.Base.Text.{Text, contains, text_eq, text_eq_iff}
use majmun.Cache.Clean.Removal.{remove_checked-Keeps, remove_checked-gone, remove_existing-cases}
use majmun.Cache.Clean.Retained.{IsRetained, outlived_iff}
use majmun.Cache.Clean.{
  data_extension, done, ◌then_remove◌, remove_entry, clean_data, clean_meta, clean_file, clean_loop,
  clean_expired, outlived, names,
}
use majmun.Cache.Disk.{
  Time, Disk, Refuses, Content, json, Metadata, remove_checked, remove_existing, read_metadata,
  read_dir,
}
use majmun.Cache.Open.{compressed_extension, uncompressed_extension, meta_extension}

-- Every file of `d'` is one of `d`.
abbrev pub Shrinks : Disk → Disk → Type 0
Shrinks d d' = (p : Text) (c : Content) → lookup p d' ≡ some c → lookup p d ≡ some c

-- Data that had metadata before the clean-up, or metadata of an entry that is still retained.
abbrev pub IsKept : Time → Disk → Text → Content → Type 0
IsKept now d p c =
    ((e : Text) × (x : Content) × (data_extension p ≡ some e)
      × (lookup (trim_suffix p e ++ meta_extension) d ≡ some x))
    ⊎ ((m : Metadata) × (c ≡ json m) × (ends_with meta_extension p ≡ true) × IsRetained now m)

module _ (refuses : Refuses) (now : Time) where
  remove-Shrinks : (path : Text) (d : Disk) → Shrinks d (done (remove_checked refuses path d) d).0
  remove-Shrinks path d = (remove_checked-Keeps refuses path d).before

  then-Shrinks : (r : Disk × Bool) (path : Text) → Shrinks r.0 (◌then_remove◌ refuses r path).0
  then-Shrinks (d, false) path p c h = h
  then-Shrinks (d, true) path p c h = remove-Shrinks path d p c h

  remove_entry-Shrinks : (n : Text) (d : Disk) → Shrinks d (remove_entry refuses n d).0
  unfolding remove_entry
  remove_entry-Shrinks n d p c h =
      then-Shrinks (d, true) (n ++ compressed_extension) p c
        (then-Shrinks _ (n ++ uncompressed_extension) p c
          (then-Shrinks _ (n ++ meta_extension) p c h))

  existing-Shrinks :
      (path : Text) (d : Disk) → Shrinks d (done (remove_existing refuses path d) d).0
  existing-Shrinks path d = elim (remove_existing-cases refuses path d) [
    | inl fails ↦ rw fails (λ p c h. h)
    | inr same ↦ rw same (remove-Shrinks path d)
  ]

  clean_file-Shrinks : (file : Text) (d : Disk) → Shrinks d (clean_file refuses now file d).0
  unfolding clean_file clean_data clean_meta
  clean_file-Shrinks file d p c = ground (
    arith,
    remove-Shrinks file d p c,
    existing-Shrinks file d p c,
    remove_entry-Shrinks (trim_suffix file meta_extension) d p c,
  )

  -- A removal that succeeds leaves nothing under its name.
  remove_own :
      (path : Text) (d : Disk)
      → (done (remove_checked refuses path d) d).1 ≡ true
      → lookup path (done (remove_checked refuses path d) d).0 ≡ none
  remove_own path d h = elim (Option-cases (remove_checked refuses path d)) [
    | inl fails ↦ cc
    | inr (d', removed) ↦ rw removed (remove_checked-gone refuses path d removed)
  ]

  existing_own :
      (path : Text) (d : Disk)
      → (done (remove_existing refuses path d) d).1 ≡ true
      → lookup path (done (remove_existing refuses path d) d).0 ≡ none
  existing_own path d h = elim (remove_existing-cases refuses path d) [
    | inl fails ↦ cc
    | inr same ↦ rw same (remove_own path d (rw same at h))
  ]

  then_own :
      (r : Disk × Bool) (path : Text)
      → (◌then_remove◌ refuses r path).1 ≡ true
      → lookup path (◌then_remove◌ refuses r path).0 ≡ none
  then_own (d, false) path h = cc
  then_own (d, true) path h = remove_own path d h

  read_metadata-json :
      (file : Text) (d : Disk) (m : Metadata)
      → read_metadata refuses file d ≡ some m
      → lookup file d ≡ some (json m)
  unfolding read_metadata
  read_metadata-json file d m h = ground arith

  remove_entry_own :
      (file : Text) (d : Disk)
      → ends_with meta_extension file ≡ true
      → (remove_entry refuses (trim_suffix file meta_extension) d).1 ≡ true
      → lookup file (remove_entry refuses (trim_suffix file meta_extension) d).0 ≡ none
  unfolding remove_entry
  remove_entry_own file d meta ran =
      subst (λ p. lookup p (remove_entry refuses (trim_suffix file meta_extension) d).0 ≡ none)
        (trim_suffix-append file meta_extension meta) (then_own _ _ ran)

  gone {ℓ} : {A : Type ℓ} {c : Content} (o : Option Content) → o ≡ some c → o ≡ none → A
  gone o there missing = absurd (cc)

  clean_data-IsKept :
      (file e : Text) (d : Disk) (c : Content)
      → data_extension file ≡ some e
      → (clean_data refuses file e d).1 ≡ true
      → lookup file (clean_data refuses file e d).0 ≡ some c
      → IsKept now d file c
  unfolding clean_data
  clean_data-IsKept file e d c found ran there =
      elim (Option-cases (lookup (trim_suffix file e ++ meta_extension) d)) [
        | inr (x, meta) ↦ inl (e, x, found, meta)
        | inl missing ↦ ground (arith, existing_own file d)
      ]

  clean_meta-IsKept :
      (file : Text) (d : Disk) (c : Content)
      → ends_with meta_extension file ≡ true
      → (clean_meta refuses now file d).1 ≡ true
      → lookup file (clean_meta refuses now file d).0 ≡ some c
      → IsKept now d file c
  unfolding clean_meta
  clean_meta-IsKept file d c meta ran there = elim (Option-cases (read_metadata refuses file d)) [
    | inl unread ↦
        gone _ (rw (unread, clean_meta) at there)
          (remove_own file d (rw (unread, clean_meta) at ran))
    | inr (m, found) ↦ elim (Bool-cases (outlived now m)) [
      | inr young ↦
          let here : lookup file d ≡ some c = rw young at (rw (found, clean_meta) at there) in
          inr (m, cc (here, read_metadata-json file d m found), meta, (outlived_iff now m).0 young)
      | inl old ↦
          gone _ (rw old at (rw (found, clean_meta) at there))
            (remove_entry_own file d meta (rw old at (rw (found, clean_meta) at ran)))
    ]
  ]

  clean_file-IsKept :
      (file : Text) (d : Disk) (c : Content)
      → (clean_file refuses now file d).1 ≡ true
      → lookup file (clean_file refuses now file d).0 ≡ some c
      → IsKept now d file c
  unfolding clean_file
  clean_file-IsKept file d c ran there = elim (Option-cases (data_extension file)) [
    | inr (e, found) ↦
        clean_data-IsKept file e d c found (rw (found, clean_file) at ran)
          (rw (found, clean_file) at there)
    | inl found ↦ elim (Bool-cases (ends_with meta_extension file)) [
      | inl meta ↦
          clean_meta-IsKept file d c meta (rw meta at (rw (found, clean_file) at ran))
            (rw meta at (rw (found, clean_file) at there))
      | inr unexpected ↦
          gone _ (rw unexpected at (rw (found, clean_file) at there))
            (remove_own file d (rw unexpected at (rw (found, clean_file) at ran)))
    ]
  ]

  -- What was retained of a smaller directory is retained of a larger one.
  IsKept-Shrinks :
      (d d' : Disk) (p : Text) (c : Content) → Shrinks d d' → IsKept now d' p c → IsKept now d p c
  IsKept-Shrinks d d' p c smaller (inl (e, x, found, meta)) = inl (e, x, found, smaller _ x meta)
  IsKept-Shrinks d d' p c smaller (inr young) = inr young

  clean_loop-Shrinks : (files : List Text) (d : Disk) → Shrinks d (clean_loop refuses now files d).0
  unfolding clean_loop
  clean_loop-Shrinks [] d p c h = h
  clean_loop-Shrinks (file ∷ files) d p c h = elim (Bool-cases (clean_file refuses now file d).1) [
    | inl go_on ↦ clean_file-Shrinks file d p c (
        clean_loop-Shrinks files (clean_file refuses now file d).0 p c
          (rw (go_on, clean_loop) at h))
    | inr stop ↦ clean_file-Shrinks file d p c (rw (stop, clean_loop) at h)
  ]

  clean_loop-IsKept :
      (files : List Text) (d : Disk) (p : Text) (c : Content)
      → (clean_loop refuses now files d).1 ≡ true
      → contains files p ≡ true
      → lookup p (clean_loop refuses now files d).0 ≡ some c
      → IsKept now d p c
  unfolding clean_loop contains
  clean_loop-IsKept [] d p c ran listed there = cc
  clean_loop-IsKept (file ∷ files) d p c ran listed there =
      elim (Bool-cases (clean_file refuses now file d).1) [
        | inr stop ↦ ground arith
        | inl go_on ↦
            let d' = (clean_file refuses now file d).0 in
            let there' : lookup p (clean_loop refuses now files d').0 ≡ some c =
              rw (go_on, clean_loop) at there in
            elim (Bool-cases (text_eq file p)) [
              | inl own ↦
                  let same : file ≡ p = (text_eq_iff file p).0 own in
                  subst (λ q. IsKept now d q c) same
                    (clean_file-IsKept file d c go_on
                      (rw (← same) at (clean_loop-Shrinks files d' p c there')))
              | inr apart ↦ IsKept-Shrinks d d' p c (clean_file-Shrinks file d) (
                  clean_loop-IsKept files d' p c (rw (go_on, clean_loop) at ran)
                    (rw (apart, contains) at listed) there')
            ]
      ]

  names-contains :
      (d : Disk) (p : Text) (c : Content) → lookup p d ≡ some c → contains (names d) p ≡ true
  unfolding lookup names contains
  names-contains [] p c h = cc
  names-contains ((q, x) ∷ d) p c h = ground (arith, names-contains d p c)

  -- After a clean-up that succeeds, every file of the directory was there before, and it is data that
  -- had a file of metadata before, or metadata of an entry whose retention has not passed: no
  -- other file is left, temporary files included.
  pub clean_expired-IsKept :
      (dir : Text) (d : Disk) (p : Text) (c : Content)
      → (clean_expired refuses now dir d).1 ≡ true
      → lookup p (clean_expired refuses now dir d).0 ≡ some c
      → (lookup p d ≡ some c) × IsKept now d p c
  unfolding clean_expired
  clean_expired-IsKept dir d p c ran there = elim (Bool-cases (refuses read_dir dir)) [
    | inl fails ↦ ground arith
    | inr lists ↦
        let there' : lookup p (clean_loop refuses now (names d) d).0 ≡ some c = rw lists at there in
        let before = clean_loop-Shrinks (names d) d p c there' in
        (
          before,
          clean_loop-IsKept (names d) d p c (rw lists at ran) (names-contains d p c before) there',
        )
  ]
