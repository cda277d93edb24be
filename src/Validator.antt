-- ===== src/Validator.antt =====
-- The topology validator: shared/src/validator.ts.
pub mod Issue
pub mod Pass
pub mod ScheduleNode
pub mod Extension
pub mod Nodes
pub mod Transitions
pub mod Edges
pub mod Memberships
pub mod Cycles
pub mod Shape
pub mod Topology
