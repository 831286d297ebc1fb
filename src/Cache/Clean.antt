-- ===== src/Cache/Clean.antt =====
-- internal/httpclient/store.go: the removal of old entries, which runs once a day. The counters of the
-- log are left out.
pub mod Removal
pub mod Retained
pub mod Live
pub mod Swept
use majmun.Base.{
  ℕ, ◌-◌, ◌*◌, ◌%◌, ◌^◌, Bool, true, false, not, ◌&&◌, ◌||◌, Option, none, some, List, [], ◌∷◌,
  ◌++◌,
}
use majmun.Base.Maps.{Map, lookup}
use majmun.Base.Suffix.{ends_with, trim_suffix}
use majmun.Base.Tests.{ltb, ◌==◌, if◌then◌else◌}
use majmun.Base.Text.{Text, codes}
use majmun.Cache.Disk.{
  Time, Int64, is_negative, second, time_unix, Metadata, read_dir, Disk, Refuses, remove_checked,
  remove_existing, read_metadata,
}
use majmun.Cache.Open.{compressed_extension, uncompressed_extension, meta_extension}

abbrev pub day : ℕ
day = 86_400 * second

-- time.Duration(seconds) * time.Second.
abbrev pub duration_of : Int64 → Int64
duration_of seconds = (seconds * second) % 2 ^ 64

-- Has an entry outlived its retention?
unfoldable pub outlived : Time → Metadata → Bool
outlived now m =
    let age = now - time_unix m.cached_at in
    elim m.retention_seconds [
      | none ↦ ltb day age
      | some seconds ↦
          let retention = duration_of seconds in
          if is_negative retention || retention == 0 then true else ltb retention age
    ]

-- The extension of a file of data.
unfoldable pub data_extension : Text → Option Text
data_extension file =
    if ends_with compressed_extension file
    then some compressed_extension
    else if ends_with uncompressed_extension file
    then some uncompressed_extension
    else none

-- What a call that may fail leaves behind, and whether it succeeded.
abbrev pub done : Option Disk → Disk → Disk × Bool
done none d = (d, false)
done (some d') d = (d', true)

pub names : Disk → List Text
names [] = []
names ((file, c) ∷ d) = file ∷ names d

module _ (refuses : Refuses) where
  infixl 5 ◌then_remove◌
  abbrev pub ◌then_remove◌ : Disk × Bool → Text → Disk × Bool
  (d, false) then_remove path = (d, false)
  (d, true) then_remove path = done (remove_checked refuses path d) d

  unfoldable pub remove_entry : Text → Disk → Disk × Bool
  remove_entry name d =
      (d, true)
      then_remove (name ++ compressed_extension)
      then_remove (name ++ uncompressed_extension)
      then_remove (name ++ meta_extension)

  unfoldable pub clean_data : Text → Text → Disk → Disk × Bool
  clean_data file extension d = elim (lookup (trim_suffix file extension ++ meta_extension) d) [
    | some c ↦ (d, true)
    | none ↦ done (remove_existing refuses file d) d
  ]

  unfoldable pub clean_meta : Time → Text → Disk → Disk × Bool
  unfolding remove_entry outlived
  clean_meta now file d = elim (read_metadata refuses file d) [
    | none ↦ done (remove_checked refuses file d) d
    | some m ↦
        if outlived now m then remove_entry (trim_suffix file meta_extension) d else (d, true)
  ]

  -- One turn of the loop over the files of the directory.
  unfoldable pub clean_file : Time → Text → Disk → Disk × Bool
  unfolding clean_data clean_meta data_extension
  clean_file now file d = elim (data_extension file) [
    | some extension ↦ clean_data file extension d
    | none ↦
        if ends_with meta_extension file
        then clean_meta now file d
        else done (remove_checked refuses file d) d
  ]

  unfoldable pub clean_loop : Time → List Text → Disk → Disk × Bool
  clean_loop now [] d = (d, true)
  clean_loop now (file ∷ files) d =
      let (d', go_on) = clean_file now file d in
      let rest = clean_loop now files d' in if go_on then rest else (d', false)

  unfoldable pub clean_expired : Time → Text → Disk → Disk × Bool
  unfolding names clean_loop
  clean_expired now dir d = if refuses read_dir dir then (d, false) else clean_loop now (names d) d
