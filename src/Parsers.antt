-- ===== src/Parsers.antt =====
-- The choice of a parser for an uploaded file (backend/app/services/parsers/registry.py).
pub mod Sniff
pub mod Utf8
pub mod Checks
pub mod Csv
pub mod Chunks
pub mod Extents
pub mod Cuts
