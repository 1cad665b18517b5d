-- ===== src/Magic.antt =====
-- include/urx/magic.h: package types, data types and their sizes, and the tables of variables.
pub mod Types
pub mod Names
pub mod InputNames
pub mod OutputNames
pub mod Lookup
