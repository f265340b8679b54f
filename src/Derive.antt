-- ===== src/Derive.antt =====
-- dds_derive/src/lib.rs: the derive macros `Topic` and `DdsInterface`.
pub mod Syntax
pub mod Keywords
pub mod Names
pub mod Attributes
pub mod Keys
pub mod Expansion
pub mod Interface
mod Examples
