-- ===== src/Passes.antt =====
-- Passes/LongestPath/LongestPath.cpp: the priorities of basic blocks that the compiler leaves in the
-- program.
mod Blocks
mod Floyd
mod Room
pub mod Acyclic
pub mod Distances
pub mod Longest
unfoldable pub use Blocks.*
unfoldable pub use Floyd.*
