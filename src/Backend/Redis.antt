-- ===== src/Backend/Redis.antt =====
-- The store of values in a redis database, drmemd/src/backends/redis.rs.
pub mod Codec
pub mod Stamp
pub mod Stream
pub mod Server
pub mod Device
pub mod Register
pub mod Monitor
