-- ===== src/Parser.antt =====
-- src/units/unit_parsing and src/units/from_parsed_config.rs: from the text of a unit file to a unit.
pub mod Section
pub mod File
pub mod Config
pub mod Common
pub mod Service
pub mod Socket
pub mod Files
pub mod Units
pub mod Load
