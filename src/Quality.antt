-- ===== src/Quality.antt =====
-- Quality control (backend/app/services/admin_qc_service.py): the scan that opens issues, and the
-- review of an issue.
mod Detect
mod Scan
pub mod Rescan
unfoldable pub use Detect.*
unfoldable pub use Scan.*
