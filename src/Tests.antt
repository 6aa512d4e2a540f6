-- ===== src/Tests.antt =====
-- Concrete databases and calls: tests by evaluation, and the properties applied to them.
mod Fixtures
mod Identifiers
mod ScopeTests
mod WorkflowTests
mod AccountTests
mod UploadTests
mod CatalogTests
mod StorageTests
mod QualityTests
mod DatasetTests
mod IngestionTests
mod WriterTests
mod GriddedTests
mod ParserTests
mod CsvTests
mod RegistryTests
mod BackupTests
