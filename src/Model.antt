-- ===== src/Model.antt =====
-- The records and enumerations of crates/ployz-types/src/model.rs and spec.rs, by subject.
pub mod Error
pub mod Machine
pub mod Service
pub mod Spec
