-- ===== src/Models.antt =====
-- The rows of the database (backend/app/models), with the columns that the modelled code reads or
-- writes. Primary keys are the keys of the tables, and foreign keys are numbers.
mod Users
mod Catalog
mod Requests
mod Logs
mod Uploads
mod Stored
unfoldable pub use Users.*
unfoldable pub use Catalog.*
unfoldable pub use Requests.*
unfoldable pub use Logs.*
unfoldable pub use Uploads.*
unfoldable pub use Stored.*
