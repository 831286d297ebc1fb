-- ===== src/Cache/Status/Fresh.antt =====
-- When an entry counts as valid.
use majmun.Base.{◌-◌, ◌<◌, ◌≡◌, ◌↔◌, ap, true, some, arith, inl, inr}
use majmun.Base.Tests.{Option-cases}
use majmun.Cache.Disk.{exists, read_metadata, time_unix, Metadata}
use majmun.Cache.Http.{World}
use majmun.Cache.Reader.{Session}
use majmun.Cache.Status.{valid, check_cache_status, try_renewal, is_fresh}

-- Metadata that can be read, of an entry that is younger than the time to live.
pub record IsYoung (w : World) (s : Session) (m : Metadata) : Type 0 where
  pub has_meta : exists w.refuses s.reader.meta_path s.disk ≡ true
  pub has_file : exists w.refuses s.reader.file_path s.disk ≡ true
  pub reads : read_metadata w.refuses s.reader.meta_path s.disk ≡ some m
  pub positive : 0 < s.reader.ttl
  pub younger : w.now - time_unix m.cached_at < s.reader.ttl

module _ (w : World) (s : Session) where
  try_renewal-ne-valid : (m : Metadata) → (try_renewal w m s).1 ≡ valid → ⊥
  unfolding try_renewal
  try_renewal-ne-valid m h = ground arith

  status-IsYoung : (check_cache_status w s).1 ≡ valid → (m : Metadata) × IsYoung w s m
  unfolding check_cache_status is_fresh
  status-IsYoung h = elim (Option-cases (read_metadata w.refuses s.reader.meta_path s.disk)) [
    | inl unread ↦ ground arith
    | inr (m, found) ↦ (m, ground (arith, try_renewal-ne-valid m))
  ]

  IsYoung-status : (m : Metadata) → IsYoung w s m → check_cache_status w s ≡ (s, valid)
  unfolding check_cache_status is_fresh
  IsYoung-status m y = ground arith

  pub check_cache_status-valid :
      (check_cache_status w s ≡ (s, valid)) ↔ ((m : Metadata) × IsYoung w s m)
  check_cache_status-valid = (λ h. status-IsYoung (ap (λ t. t.1) h), λ y. IsYoung-status y.0 y.1)
