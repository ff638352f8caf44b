-- ===== src/External.antt =====
-- Drivers of external hardware, the crates below drivers/.
pub mod Sump
pub mod Tplink
pub mod Ntp
