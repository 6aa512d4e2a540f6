-- ===== src/Session.antt =====
-- A request handler's database session (backend/app/core/database.py): what the handler writes
-- is pending until `commit`, and an exception drops what is pending. A handler raises
-- `HTTPException` with a status code, or another exception, which the client sees as a 500.
mod Defs
mod Laws
unfoldable pub use Defs.*
pub use Laws.*
