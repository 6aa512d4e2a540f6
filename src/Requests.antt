-- ===== src/Requests.antt =====
-- Access requests and the grants that come of them (backend/app/services/requests_service.py),
-- with what archiving a dataset and the deletion of an account do to grants
-- (backend/app/services/admin_datasets_service.py, backend/app/worker/tasks/notifications.py).
mod Expiry
mod Review
mod Grants
unfoldable pub use Expiry.*
unfoldable pub use Review.*
unfoldable pub use Grants.*
