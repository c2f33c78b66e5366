-- ===== src/Serialization.antt =====
-- The JSON forms of the objects. nlohmann::json is not part of the repository: its values and what
-- the code calls of it are a parameter (Library).
pub mod Library
pub mod Orders
pub mod Events
pub mod Books
pub mod Samples
