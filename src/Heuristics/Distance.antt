-- ===== src/Heuristics/Distance.antt =====
-- Distance.cpp: warps run ahead of the others by the distance to the point where they have met
-- before.
mod States
mod Points
mod Schedule
mod Steps
pub mod Runs
pub mod Contract
unfoldable pub use States.*
unfoldable pub use Points.*
unfoldable pub use Schedule.*
unfoldable pub use Steps.*
