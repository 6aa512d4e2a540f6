-- ===== src/Table.antt =====
-- A database table: rows under their primary keys. The keys are the UUIDs of the source, as
-- numbers, since the program only compares them.
mod Defs
mod Laws
mod Counts
mod Keys
mod Rows
unfoldable pub use Defs.*
pub use Laws.*
pub use Keys.*
pub use Counts.*
pub use Rows.*
