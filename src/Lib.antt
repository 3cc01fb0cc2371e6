-- ===== src/Lib.antt =====
-- The simulator of the Minimal Multi-Threading architecture (MMT): it reads the instruction traces
-- of the threads of a program and replays them together. In every round a synchronisation heuristic
-- chooses threads that stand at the same instruction, which then execute it as one.
--
-- Parts and files (paths from the root of the repository):
--   Trace      Execute/src/Thread.{hpp,cpp} (`Instruction`, `Instruction::read`) and
--              Execute/src/InstructionFlags.hpp. A trace file is the list of its bytes and the
--              end-of-file indicator; `decode` reads all its records.
--   Threads    Execute/src/Thread.{hpp,cpp} (`Thread`, `load`, `fetch`).
--   Heuristics Execute/src/Heuristic.hpp and Heuristics/src: MinPC, MinSP_PC, RoundRobin (Simple),
--              RoundRobin_Eq (Equal), MaxFun_MinPC (MaxFun), the buffers of the Long heuristics
--              (Fhb), Long_MinPC and Long_MinSP_PC (LongMin), Long and Long_IRB (LongQueue),
--              RD_MinSP_PC (Rd), TF_MaxFun (Frontier), the post-dominator heuristics (PostDom, a
--              directory), Lee (Lee, LeeFrames, LeeCalls), TFP (Tfp, TfpGroups, TfpStarts), Warp
--              (Warp, Splitting), GreedyOracle (Oracle, a directory) and Distance (a directory).
--              The class `Heuristic` is a record of `choose_threads` and `register_instruction`
--              over a state; `IsHeuristic` (Interface) is what the simulator relies on, and
--              Simulation/Exact takes it as a parameter.
--   Statistics Execute/src/StatisticCounter.{hpp,cpp}.
--   Analyser   Execute/src/DataAnalyser.{hpp,cpp}: `init`, `analyse` with its memory, register and
--              divergence statistics, `check_result`.
--   Simulation Execute/src/Simulation.{hpp,cpp}: `refill`, `read_instructions`, `check_valid` and
--              the loop `simulation`.
--   Tracer     Tools/insList.cpp and Tools/PragmasCodes.hpp: the Pin tool that writes the trace
--              file of a thread. The arrays indexed by the thread are the fields of a record
--              `Tracer`; Defs and Events hold the calls that run in the traced program, Instrument what
--              `Instruction` inserts by the answers of the Pin library, which are the records `Ins`
--              and `Values`. Run takes a thread through its events, and
--              Pcs compares the file with a description of when the tool prints.
--   Counter    Tools/insCounter.cpp: the Pin tool that counts the instructions of a thread, with the
--              fields of `Counter` for its arrays; Routines holds the calls that `Image` inserts at
--              the routines of the pthread library.
--   Passes     Passes/LongestPath/LongestPath.cpp: which blocks are final, whether a control flow
--              graph is acyclic, and the lengths of its longest paths by `floyd_warshall` (Floyd; Room
--              bounds the distances). Blocks
--              are numbers; what LLVM answers about one is a record `BasicBlock`.
--   Base       what the parts share: loops, searches, selection of a best thread, results.
--   Tests      the theorems at concrete threads and files.
--
-- How the C++ is represented: the arrays of threads and counters are functions of the index, and
-- the number of threads is an argument `n`; objects that are changed are records that are returned
-- anew; the thread array that simulator, heuristic and analyser share is passed between them. An
-- exception is `err`, and so are the reads outside an array that the code may do (`out_of_bounds`).
-- `int ref = -1` is `none`. Memory that the C++ allocates and does not initialise is an argument
-- (`memory` in `load` and `start`, the first minimum and maximum of a `StatisticCounter`, the level
-- of the base block in PostDom). Counters of type LONG wrap at 2^64 and UINT at 2^32 where they are
-- written out so; the number of threads and of the instructions that wait in a queue are taken to
-- be below that. `std::sort` is an insertion sort of numbers. The addresses and registers of an
-- instruction are lists of what was read: the writes past the end of `mem_address[4]` that a count
-- of 5 to 7 causes are not modelled, the check of the count in `check_valid` is. In the same way the four
-- entries of `stored_delayed_memory` in insList are an array without end.
-- `beta * diff` of GreedyOracle, a product of doubles, is an argument; the states of warps in
-- Distance are indexed by the number of the mask. `int` is unbounded in the counts and distances of
-- Distance, and in the function levels of MaxFun_MinPC, TF_MaxFun and TFP: these count nested calls,
-- which are taken to be fewer than 2^31. In Passes an `int` that overflows is `out_of_bounds`.
--
-- Fuel: the loop of `simulation` counts its rounds, and the loop of `Long` and `Long_IRB` its
-- passes; `split_warp` counts its rounds, of which the number of threads is enough; `decode` counts
-- the records by the bytes; `is_acyclic_cfg` counts the depth
-- of its recursion, of which more than the number of blocks is enough; `first_bit` needs no more than
-- 64 rounds for a LONG.
--
-- Not modelled: the printing of results, the command line and the loading of heuristics as shared
-- objects (Execute/src/Main.cpp), the registration of the calls of
-- insList for locks, barriers and threads through Pin (`Image`, `main`), the Pin tool
-- threadLog, the other LLVM passes and the other two searches of LongestPath (Passes), the scripts
-- and the benchmarks (mini).
pub mod Base
pub mod Trace
pub mod Threads
pub mod Heuristics
pub mod Statistics
pub mod Analyser
pub mod Simulation
pub mod Tests
pub mod Counter
pub mod Passes
pub mod Tracer
