-- ===== src/Cache/Disk.antt =====
-- The cache directory (internal/httpclient) as the operating system shows it, and the metadata of an
-- entry. Every path of the cache is a name in that directory, so a path is a name here. A file is
-- what json.Decoder makes of its bytes: the metadata of an entry, or anything else. `refuses` says
-- which calls fail for a path, such as for a lack of rights or of space.
use majmun.Base.{ℕ, ◌+◌, ◌-◌, ◌*◌, ◌/◌, Bool, true, false, Option, none, some, [], ◌++◌}
use majmun.Base.Maps.{Map, lookup, insert, delete}
pub use majmun.Base.Int64.{Int64, is_negative}
use majmun.Base.Tests.{if◌then◌else◌}
use majmun.Base.Text.{Text}

-- A time.Time in nanoseconds since its zero, which is the first of January of the year 1.
abbrev pub Time : Type 0
Time = ℕ

abbrev pub second : ℕ
second = 1_000_000_000

abbrev pub unix_epoch : ℕ
unix_epoch = 62_135_596_800

-- time.Unix(seconds, 0) and Time.Unix.
abbrev pub time_unix : ℕ → Time
time_unix seconds = (seconds + unix_epoch) * second

abbrev pub unix : Time → ℕ
unix t = t / second - unix_epoch

pub record Metadata : Type 0 where
  pub cached_at : ℕ
  pub retention_seconds : Option Int64
  pub headers : Map Text

pub data Content : Type 0 where
  json : Metadata → Content
  other : Text → Content

abbrev pub Disk : Type 0
Disk = Map Content

pub data Call : Type 0 where
  read_dir stat open_file create encode write_file close_file rename remove : Call

abbrev pub Refuses : Type 0
Refuses = Call → Text → Bool

module _ (refuses : Refuses) where
  unfoldable pub exists : Text → Disk → Bool
  exists path d = elim (lookup path d) [
    | none ↦ false
    | some c ↦ if refuses stat path then false else true
  ]

  -- os.Remove where its error is dropped.
  unfoldable pub remove_file : Text → Disk → Disk
  remove_file path d = if refuses remove path then d else delete path d

  -- os.Remove where an error other than a missing file counts.
  unfoldable pub remove_checked : Text → Disk → Option Disk
  remove_checked path d = elim (lookup path d) [
    | none ↦ some d
    | some c ↦ if refuses remove path then none else some (delete path d)
  ]

  -- os.Remove where every error counts.
  unfoldable pub remove_existing : Text → Disk → Option Disk
  remove_existing path d = elim (lookup path d) [
    | none ↦ none
    | some c ↦ if refuses remove path then none else some (delete path d)
  ]

  unfoldable pub create_file : Text → Disk → Option Disk
  create_file path d = if refuses create path then none else some (insert path (other []) d)

  unfoldable pub rename_file : Text → Text → Disk → Option Disk
  rename_file from to d = elim (lookup from d) [
    | none ↦ none
    | some c ↦ if refuses rename from then none else some (insert to c (delete from d))
  ]

  unfoldable pub read_metadata : Text → Disk → Option Metadata
  read_metadata path d = elim (lookup path d) [
    | none ↦ none
    | some c ↦ if refuses open_file path then none else elim c [ json m ↦ some m | other s ↦ none ]
  ]

-- A write through a handle reaches the file as long as it has its name.
unfoldable pub append_file : Text → Text → Disk → Disk
append_file path s d = elim (lookup path d) [
  | none ↦ d
  | some c ↦ elim c [ json m ↦ d | other t ↦ insert path (other (t ++ s)) d ]
]
