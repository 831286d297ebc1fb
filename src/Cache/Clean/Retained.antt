-- ===== src/Cache/Clean/Retained.antt =====
-- How long an entry is retained, in numbers.
use majmun.Base.{ℕ, ◌+◌, ◌^◌, ◌≤◌, ◌<◌, ◌≡◌, ◌↔◌, refl, false, Option, none, some, arith}
use majmun.Cache.Clean.{outlived, day, duration_of}
use majmun.Cache.Disk.{Time, Int64, Metadata, time_unix}

abbrev pub IsWithin : Time → ℕ → Option Int64 → Type 0
IsWithin now cached_at none = now ≤ time_unix cached_at + day
IsWithin now cached_at (some seconds) =
    (0 < duration_of seconds)
    × (duration_of seconds < 2 ^ 63)
    × (now ≤ time_unix cached_at + duration_of seconds)

-- The retention has not passed: a day where none is given, and otherwise a duration that is positive
-- as an int64.
abbrev pub IsRetained : Time → Metadata → Type 0
IsRetained now m = IsWithin now m.cached_at m.retention_seconds

outlived-IsWithin :
    (now cached_at : ℕ) (retention : Option Int64) (m : Metadata)
    → m.cached_at ≡ cached_at
    → m.retention_seconds ≡ retention
    → (outlived now m ≡ false) ↔ IsWithin now cached_at retention
unfolding outlived
outlived-IsWithin now cached_at none m at kind = ground arith
outlived-IsWithin now cached_at (some seconds) m at kind = ground arith

pub outlived_iff : (now : Time) (m : Metadata) → (outlived now m ≡ false) ↔ IsRetained now m
outlived_iff now m = outlived-IsWithin now m.cached_at m.retention_seconds m refl refl
