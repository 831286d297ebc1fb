-- ===== src/Cache/Clean/Removal.antt =====
-- What the removal of a file does to the others, and the names of an entry told apart.
use mathlib.Core.List.{reverse, reverse-append}
use majmun.Base.{subst, ◌≡◌, ◌≢◌, refl, sym, ◌⊎◌, inl, inr, false, none, some, ◌++◌, arith}
use majmun.Base.Maps.{lookup, lookup-delete}
use majmun.Base.Suffix.{ends_with, trim_suffix, ends_with-append, trim_suffix-append}
use majmun.Base.Tests.{Bool-cases, Option-cases}
use majmun.Base.Text.{Text, starts_with, text_eq_iff}
use majmun.Cache.Clean.{data_extension, done}
use majmun.Cache.Disk.{Disk, Refuses, Content, remove_checked, remove_existing}
use majmun.Cache.Open.{compressed_extension, uncompressed_extension, meta_extension}

-- A file that is there afterwards was there before; one other than the removed file stays.
pub record Keeps (path : Text) (d d' : Disk) : Type 0 where
  pub before : (p : Text) (c : Content) → lookup p d' ≡ some c → lookup p d ≡ some c
  pub others : (p : Text) → path ≢ p → lookup p d' ≡ lookup p d

module _ (refuses : Refuses) (path : Text) (d : Disk) where
  pub remove_checked-Keeps : Keeps path d (done (remove_checked refuses path d) d).0
  unfolding remove_checked
  remove_checked-Keeps = record {
    before = λ p c h. ground (arith, lookup-delete path p d);
    others = λ p apart. ground (arith, lookup-delete path p d, text_eq_iff path p);
  }

  -- The two removals differ on a missing file only.
  pub remove_existing-cases :
      (remove_existing refuses path d ≡ none)
      ⊎ (remove_existing refuses path d ≡ remove_checked refuses path d)
  unfolding remove_existing remove_checked
  remove_existing-cases = elim (Option-cases (lookup path d)) [
    | inl e ↦ rw (e, remove_existing, remove_checked) (inl refl)
    | inr (c, e) ↦ rw (e, remove_existing, remove_checked) (inr refl)
  ]

  -- A removal that succeeds leaves no file.
  pub remove_checked-gone :
      {d' : Disk} → remove_checked refuses path d ≡ some d' → lookup path d' ≡ none
  unfolding remove_checked
  remove_checked-gone h = ground (arith, lookup-delete path path d, text_eq_iff path path)

-- One of the two extensions of data.
abbrev pub IsData : Text → Type 0
IsData extension = (extension ≡ compressed_extension) ⊎ (extension ≡ uncompressed_extension)

pub ends_with_apart :
    (s suffix t : Text)
    → starts_with (reverse suffix) (reverse t ++ reverse s) ≡ false
    → ends_with suffix (s ++ t) ≡ false
unfolding ends_with
ends_with_apart s suffix t h = rw (reverse-append s t) h

pub data_extension-compressed :
    (s : Text) → data_extension (s ++ compressed_extension) ≡ some compressed_extension
unfolding data_extension
data_extension-compressed s = rw (ends_with-append s compressed_extension) refl

pub data_extension-uncompressed :
    (s : Text) → data_extension (s ++ uncompressed_extension) ≡ some uncompressed_extension
unfolding data_extension starts_with
data_extension-uncompressed s =
    rw (ends_with_apart s compressed_extension uncompressed_extension refl)
      (rw (ends_with-append s uncompressed_extension) refl)

pub data_extension-meta : (s : Text) → data_extension (s ++ meta_extension) ≡ none
unfolding data_extension starts_with
data_extension-meta s =
    rw (ends_with_apart s compressed_extension meta_extension refl)
      (rw (ends_with_apart s uncompressed_extension meta_extension refl) refl)

pub data_extension-split :
    (file e : Text) → data_extension file ≡ some e → IsData e × (trim_suffix file e ++ e ≡ file)
unfolding data_extension
data_extension-split file e h = elim (Bool-cases (ends_with compressed_extension file)) [
  | inl gz ↦
      let alike : compressed_extension ≡ e = ground arith in
      (
        inl (sym alike),
        subst (λ t. trim_suffix file t ++ t ≡ file) alike
            (trim_suffix-append file compressed_extension gz),
      )
  | inr plain ↦ elim (Bool-cases (ends_with uncompressed_extension file)) [
    | inl cache ↦
        let alike : uncompressed_extension ≡ e = ground arith in
        (
          inr (sym alike),
          subst (λ t. trim_suffix file t ++ t ≡ file) alike
              (trim_suffix-append file uncompressed_extension cache),
        )
    | inr neither ↦ ground arith
  ]
]
