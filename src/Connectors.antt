-- ===== src/Connectors.antt =====
-- pfp_runtime/connectors: from the records of a source to the records that the core reads. Objects are values: one that a record holds
-- twice is not shared.
pub mod Mapper
pub mod Records
pub mod Paths
pub mod Required
pub mod Streams
mod Tests
