-- ===== src/Writer.antt =====
-- The rows that the repair of older files writes to the database (`_write_dataset_records` in
-- backend/app/worker/tasks/ingestion.py).
mod Melt
mod Copy
mod Laws
pub mod Batches
pub mod ExactlyOnce
unfoldable pub use Melt.*
unfoldable pub use Copy.*
