-- ===== src/Event.antt =====
-- What the engine reports: backend/include/titanx/event/*.hpp and backend/src/event/OrderEvent.cpp.
pub mod OrderEvent
pub mod FillEvent
