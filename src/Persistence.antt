-- ===== src/Persistence.antt =====
-- What outlives the process: backend/src/persistence.
pub mod Database
pub mod EventStore
pub mod RedisPositionCache
