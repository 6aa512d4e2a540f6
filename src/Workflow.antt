-- ===== src/Workflow.antt =====
-- Requests, grants, extractions and downloads together: the abstract transitions of their
-- life (Change), the handlers as paths of such transitions (Requests, Grants, Extractions,
-- System), and the invariants, proved once for each transition.
mod Change
mod System
pub mod ReviewPaths
pub mod GrantPaths
pub mod DeletionPaths
pub mod ExtractionPaths
pub mod Refinement
pub mod Counters
pub mod SingleGrant
pub mod Erasure
pub mod Revocation
pub mod Outcomes
pub mod Downloads
unfoldable pub use System.*
unfoldable pub use Change.*
