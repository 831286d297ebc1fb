-- ===== src/Cache.antt =====
-- internal/httpclient: the cache of downloaded files. Disk is its directory, Http what it uses of
-- net/http, Reader the reader of one entry, Status how an entry is looked up and opened, Clean how
-- old entries are removed.
pub mod Disk
pub mod Http
pub mod Reader
pub mod Close
pub mod Status
pub mod Open
pub mod Clean
pub mod Hit
pub mod Tests
