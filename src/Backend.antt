-- ===== src/Backend.antt =====
-- The stores of device values, drmemd/src/backends.
pub mod Simple
pub mod Redis
