-- ===== src/Catalog.antt =====
-- The records of a dataset and their filters: the rows in the database
-- (backend/app/services/catalog_service.py) and the rows of Parquet files
-- (backend/app/services/tabular_query_service.py) and of gridded files
-- (backend/app/services/gridded_query_service.py).
mod Filter
mod Tabular
mod Preview
pub mod Gridded
mod Records
pub mod Agreement
pub mod Totals
unfoldable pub use Filter.*
unfoldable pub use Tabular.*
unfoldable pub use Preview.*
unfoldable pub use Records.*
