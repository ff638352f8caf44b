-- ===== src/Driver.antt =====
-- The built-in drivers, drmemd/src/driver.
pub mod Timer
pub mod Cycle
pub mod Latch
pub mod Counter
pub mod Integrate
pub mod Memory
pub mod Map
