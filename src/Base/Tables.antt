-- ===== src/Base/Tables.antt =====
-- Tables of rows: what the statements do, keys, and how a table changes over a history.
pub mod Statements
pub mod Keys
pub mod History
pub use Statements.*
pub use Keys.*
pub use History.*
