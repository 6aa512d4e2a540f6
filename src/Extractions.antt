-- ===== src/Extractions.antt =====
-- Extractions of granted data: asking for one (backend/app/services/extraction_service.py), the
-- worker's run (backend/app/worker/tasks/extraction.py), and the download of its result
-- (backend/app/routers/requests.py).
mod Worker
mod Handlers
unfoldable pub use Worker.*
unfoldable pub use Handlers.*
