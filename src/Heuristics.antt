-- ===== src/Heuristics.antt =====
-- Execute/src/Heuristic.hpp: what the simulator asks of a heuristic, and the heuristics of
-- Heuristics/src.
pub mod Interface
pub mod Simple
pub mod Equal
pub mod MaxFun
pub mod Fhb
pub mod LongMin
pub mod LongQueue
pub mod Rd
pub mod Orders
pub mod Laws
pub mod Queued
pub mod Least
pub mod Turns
pub mod First
pub mod Scheduled
pub mod Frontier
pub mod Reconverge
pub mod Candidates
pub mod PostDom
pub mod Lee
pub mod LeeFrames
pub mod LeeCalls
pub mod Warp
pub mod Splitting
pub mod Tfp
pub mod TfpGroups
pub mod TfpStarts
pub mod Oracle
pub mod Distance
pub mod Contracts
