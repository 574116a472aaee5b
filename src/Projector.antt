-- ===== src/Projector.antt =====
-- glass-lint-core/src/analysis/flow/projector: the reversible state of the object-flow projector.
mod Tests
pub mod Aliases
pub mod Log
pub mod Tables
pub mod Control
pub mod Emission
