-- ===== src/Uploads.antt =====
-- Multipart uploads, from the first part to ingestion
-- (backend/app/services/dataset_multipart_upload_service.py, worker/tasks/ingestion.py).
mod Handlers
mod Start
mod Ingestion
pub mod Terminal
pub mod Cancellation
pub mod Beginning
pub mod Lifecycle
unfoldable pub use Handlers.*
unfoldable pub use Start.*
unfoldable pub use Ingestion.*
