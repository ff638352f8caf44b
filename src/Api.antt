-- ===== src/Api.antt =====
-- The types that drivers and the daemon share, drmem-api/src.
pub mod Value
pub mod Name
pub mod Overridable
