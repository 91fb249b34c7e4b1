-- ===== src/Tests.antt =====
-- Concrete libraries, instances and messages, and the theorems applied to them.
pub mod Libraries
pub mod Arrays
pub mod Handlers
pub mod Indexes
pub mod Graph
pub mod Rounds
pub mod Stores
pub mod Lives
pub mod Ranges
pub mod Wires
pub mod Letters
pub mod Runs
