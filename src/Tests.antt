-- ===== src/Tests.antt =====
-- The theorems at concrete threads and files.
mod Data
mod Choices
mod Runs
mod Bounds
mod Writer
mod Diverging
mod Calling
mod Warps
mod Frontiers
mod Oracles
mod Counters
mod Graphs
