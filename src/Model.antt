-- ===== src/Model.antt =====
-- The domain objects: backend/include/titanx/model/*.hpp, backend/src/model/Order.cpp and
-- Trade.cpp, a module for each header, and the sources of identifiers and time (World, Uuid).
pub mod World
pub mod Uuid
pub mod OrderSide
pub mod OrderType
pub mod OrderStatus
pub mod Order
pub mod Trade
pub mod Names
pub mod Prices
