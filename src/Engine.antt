-- ===== src/Engine.antt =====
-- The matching core: backend/include/titanx/engine and backend/src/engine.
pub mod Levels
pub mod Sweep
pub mod OrderBook
pub mod MatchingEngine
