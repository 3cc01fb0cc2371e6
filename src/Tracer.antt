-- ===== src/Tracer.antt =====
-- Tools/insList.cpp: the Pin tool that writes the trace files.
mod Defs
mod Events
mod Instrument
pub mod Bytes
mod Stores
mod Prints
mod Marks
pub mod Header
pub mod Entry
mod Counts
pub mod Whole
pub mod Sound
mod Flush
mod Executes
mod Calls
mod Quiet
mod Pragmas
pub mod Inserted
pub mod Run
pub mod Modes
pub mod Waits
pub mod Pcs
pub mod FlagBits
unfoldable pub use Defs.*
unfoldable pub use Events.*
unfoldable pub use Instrument.*
