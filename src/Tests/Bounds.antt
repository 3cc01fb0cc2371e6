-- ===== src/Tests/Bounds.antt =====
-- The tables of the memory statistics, on two threads with scattered addresses.
use mmt_sync.Base.{ℕ, zero, suc, ◌<◌, ◌≡◌, ◌∷◌, [], arith}
use mmt_sync.Base.Int.{pos}
use mmt_sync.Heuristics.Interface.{Threads}
use mmt_sync.Analyser.{init, first_bit, memory_analysis}
use mmt_sync.Analyser.Slots.{IsOk, IsHighestBit, first_bit-highest}
use mmt_sync.Analyser.Sorted.{All}
use mmt_sync.Analyser.Bounded.{IsLong, memory_analysis-IsOk}
use mmt_sync.Tests.Data.{thread_at}

first_bit-highest_example : (m : ℕ) × (first_bit 40 ≡ suc m) × (m < 64) × IsHighestBit 40 m
first_bit-highest_example = first_bit-highest 40 (omega arith) (omega arith)

abbrev loads : Threads
loads zero = record (thread_at 1 1) { mem_quant = 1; mem_address = 4096 ∷ [] }
loads _ = record (thread_at 1 1) { mem_quant = 1; mem_address = 64 ∷ [] }

loads-IsLong : (i : ℕ) → i < 2 → All IsLong (loads i).mem_address
loads-IsLong zero lt = (omega arith, tt)
loads-IsLong (suc i) lt = (omega arith, tt)

memory_analysis-IsOk_example : IsOk (memory_analysis 2 loads 0 2 (init (λ _. pos 0) 10))
memory_analysis-IsOk_example = memory_analysis-IsOk 2 loads 0 2 (init (λ _. pos 0) 10) loads-IsLong
