-- ===== src/Rules.antt =====
-- The rules of a configuration: internal/config/common, internal/config/rules, and their processors
-- in internal/listing/m3u8/rules.
pub mod Config
pub mod Conditions
pub mod Fields
pub mod Tests
