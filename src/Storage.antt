-- ===== src/Storage.antt =====
-- Object storage: the keys of objects (backend/app/services/storage/keys.py), and the sweep that
-- compares them with the rows of the database (backend/app/worker/tasks/integrity.py).
mod Keys
mod Sweep
pub mod Naming
pub mod Orphans
pub mod Complete
unfoldable pub use Keys.*
unfoldable pub use Sweep.*
