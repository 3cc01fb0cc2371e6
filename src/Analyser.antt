-- ===== src/Analyser.antt =====
-- Execute/src/DataAnalyser.hpp and DataAnalyser.cpp.
mod Defs
mod Memory
mod Registers
mod Divergence
mod Analyse
pub mod Totals
pub mod Tally
pub mod Consistent
pub mod Slots
pub mod Sorted
pub mod Bounded
unfoldable pub use Defs.*
unfoldable pub use Memory.*
unfoldable pub use Registers.*
unfoldable pub use Divergence.*
unfoldable pub use Analyse.*
