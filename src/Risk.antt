-- ===== src/Risk.antt =====
-- The risk layer: backend/include/titanx/risk and backend/src/risk.
pub mod CircuitBreaker
pub mod RiskEngine
