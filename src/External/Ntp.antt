-- ===== src/External/Ntp.antt =====
-- The monitor of an NTP server, drivers/drmem-drv-ntp/src/driver.rs.
pub mod Info
pub mod Reply
pub mod Run
pub mod Devices
pub mod Bounds
pub mod Laws
