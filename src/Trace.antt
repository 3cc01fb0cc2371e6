-- ===== src/Trace.antt =====
-- Execute/src/Thread.hpp, Thread.cpp and InstructionFlags.hpp: a record of the trace file, the
-- bytes it is read from, and the control flow flags.
mod Flags
mod Format
mod Progress
pub mod Decode
unfoldable pub use Flags.*
unfoldable pub use Format.*
