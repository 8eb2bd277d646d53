-- ===== src/Xml.antt =====
-- Package xml of go-susi (go-susi/xml): fragments, filters, and the database over them.
pub mod Tests
pub mod Hash
pub mod Filter
pub mod Select
pub mod Serial
pub mod Db
