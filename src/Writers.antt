-- ===== src/Writers.antt =====
-- cyclonedds/src/dds_writer.rs: the writer, how it is built, and the loans of its samples.
pub mod Loans
pub mod Building
pub mod Absence
mod Examples
