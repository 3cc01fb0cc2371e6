-- ===== src/Heuristics/PostDom.antt =====
-- PostDom.hpp and the sub-heuristics PostDom_*.cpp: threads that diverge at a branch wait for each
-- other at its post-dominator.
mod Defs
mod Subs
pub mod Contract
pub mod SubLaws
pub mod Blocks
pub mod Restore
pub mod Runs
pub mod Long
unfoldable pub use Defs.*
unfoldable pub use Subs.*
