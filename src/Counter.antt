-- ===== src/Counter.antt =====
-- Tools/insCounter.cpp: the Pin tool that counts the instructions of each thread.
mod Defs
mod Events
mod Routines
pub mod Conserved
unfoldable pub use Defs.*
unfoldable pub use Events.*
unfoldable pub use Routines.*
