-- ===== src/World.antt =====
-- internal/world: the front door, the settings of a World, its switches and its scenarios.
pub mod Ingest
pub mod Params
pub mod Switches
pub mod Scripts
pub mod Scenarios
pub mod Holder
pub mod Sweep
pub mod Wiring
pub mod Details
pub mod Bridges
