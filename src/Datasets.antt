-- ===== src/Datasets.antt =====
-- Creating, editing and deleting datasets (backend/app/services/admin_datasets_service.py); their
-- publication and archiving stand with the grants that they touch, in Requests.
mod Codes
mod Handlers
pub mod Numbering
pub mod Deletion
unfoldable pub use Codes.*
unfoldable pub use Handlers.*
