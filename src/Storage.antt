-- ===== src/Storage.antt =====
-- src/storage: the records, the catalog in memory, and the journal on flash.
pub mod Records
pub mod Table
pub mod Catalog
pub mod Flash
pub mod Journal
pub mod Forms
pub mod Json
pub mod Store
