-- ===== src/Simulation.antt =====
-- Execute/src/Simulation.cpp
pub mod Defs
pub mod Pending
pub mod Refill
pub mod Read
pub mod Turn
pub mod Round
pub mod Run
pub mod Valid
pub mod Faults
pub mod Rounded
pub mod Account
pub mod Exact
unfoldable pub use Run.*
unfoldable pub use Defs.*
