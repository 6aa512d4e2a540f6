-- ===== src/Scope.antt =====
-- Search criteria as the scope of a request, of a grant and of an extraction
-- (backend/app/schemas/requests.py), the check of one against the other
-- (backend/app/services/requests_service.py) and the row filter that an extraction applies
-- (backend/app/services/extractors/scope_filter.py).
mod Criteria
mod Validate
mod Mask
pub mod Fields
pub mod Soundness
pub mod Extent
unfoldable pub use Criteria.*
unfoldable pub use Validate.*
unfoldable pub use Mask.*
