-- ===== src/Tests/Oracles.antt =====
-- GreedyOracle and Distance on three threads of which the last has ended.
use mmt_sync.Base.{
  ◌==◌, err, Result, out_of_bounds, ◌>>=◌, ℕ, zero, suc, ◌+◌, ◌≡◌, refl, List, [], ◌∷◌, ◌++◌, true,
  false, ok, OnOk, update, arith,
}
use mmt_sync.Trace.{Instruction}
use mmt_sync.Heuristics.Interface.{Threads}
use mmt_sync.Heuristics.Warp.{Warp}
use mmt_sync.Heuristics.Oracle.{Oracle, new_oracle, oracle, register_instruction}
use mmt_sync.Heuristics.Oracle.Queues.{
  Event, Foresees, times, barrier_times, Ascending, next_bound, register_instruction-Foresees,
}
use mmt_sync.Heuristics.Oracle.Distances.{IsNext}
use mmt_sync.Heuristics.Oracle.Chosen.{RunsWarp, oracle-RunsWarp}
use mmt_sync.Heuristics.Distance.{Distance, new_distance, distance, rd_min_sp_pc_warp}
use mmt_sync.Heuristics.Distance.Runs.{RunsAllOf, distance-RunsAll}
use mmt_sync.Tests.Data.{three, thread_at, done}
use mmt_sync.Tests.Warps.{three-long}

abbrev insn_at : ℕ → Instruction
insn_at pc = record {
  pc = pc;
  sp = 0;
  bb_priority = 0;
  pragma_end_list = [];
  pragma_begin_list = 0;
  pragma_end_counter = 0;
  reg_size = 0;
  cf_flags = 0;
  mem_quant = 0;
  mem_address = [];
  reg_data = [];
  barrier = false;
  basic_block = true;
  pragma_fun_call = false;
  pragma_fun_ret = false;
}

-- Thread 0 is about to execute pc 7, and thread 1 pc 4.
abbrev no_future : ℕ → List Event
no_future _ = []

abbrev first_future : ℕ → List Event
first_future = update no_future 0 (no_future 0 ++ (insn_at 7, 5) ∷ [])

abbrev short_future : ℕ → List Event
short_future = update first_future 1 (first_future 1 ++ (insn_at 4, 6) ∷ [])

abbrev short_oracle : Oracle
short_oracle =
    register_instruction (insn_at 4) 1 6 (register_instruction (insn_at 7) 0 5 (new_oracle 1000))

no_future-Foresees : Foresees (new_oracle 1000) no_future
unfolding times barrier_times Ascending
no_future-Foresees = record {
  timestamps = λ tid pc. refl;
  barriers = λ tid. refl;
  ascending = λ tid. tt;
}

short-Foresees : Foresees short_oracle short_future
unfolding next_bound register_instruction
short-Foresees =
    register_instruction-Foresees (register_instruction (insn_at 7) 0 5 (new_oracle 1000))
      first_future (insn_at 4) 1 6
      (register_instruction-Foresees (new_oracle 1000) no_future (insn_at 7) 0 5 no_future-Foresees
        (omega arith))
      (omega arith)

register_instruction-Foresees_example :
    Foresees
      (register_instruction (insn_at 9) 1 7 short_oracle)
      (update short_future 1 (short_future 1 ++ (insn_at 9, 7) ∷ []))
unfolding next_bound register_instruction
register_instruction-Foresees_example =
    register_instruction-Foresees short_oracle short_future (insn_at 9) 1 7 short-Foresees
      (omega arith)

short-IsNext : IsNext 3 three short_future
short-IsNext zero lt up = (insn_at 7, 5, [], refl, refl)
short-IsNext (suc zero) lt up = (insn_at 4, 6, [], refl, refl)
short-IsNext (suc (suc i)) lt up = cc

oracle-RunsWarp_example :
    (p : Threads × Oracle) × (oracle (λ d. d + d) 3 three short_oracle ≡ ok p)
    × RunsWarp 3 three short_future p
oracle-RunsWarp_example =
    oracle-RunsWarp (λ d. d + d) 3 three short_oracle short_future 0 (omega arith) three-long
      short-IsNext short-Foresees (omega arith) refl

distance-RunsAll_example : OnOk (RunsAllOf 3 three) (distance 3 three (new_distance 3 0 0 100))
distance-RunsAll_example =
    distance-RunsAll 3 three (new_distance 3 0 0 100) (omega arith) three-long

-- Threads at three pcs that all take part.
abbrev at_pcs : ℕ → ℕ → ℕ → Threads
at_pcs a b c zero = thread_at a 50
at_pcs a b c (suc zero) = thread_at b 50
at_pcs a b c (suc (suc zero)) = thread_at c 50
at_pcs a b c _ = done

abbrev and_then : Threads → Threads × Distance → Result (Threads × Distance)
unfolding distance
and_then t (u, s) = distance 3 t s

-- The threads part at pc 1; the warps of threads 0 and 2 meet at pc 3, and all at pc 5. The warp of
-- 0 and 2 has no origin, and `reconvDistance[-1]` is read.
unknown_origin :
    (distance 3 (at_pcs 1 1 1) (new_distance 3 0 0 100)
      >>= and_then (at_pcs 2 5 3)
      >>= and_then (at_pcs 3 5 3)
      >>= and_then (at_pcs 5 5 5))
    ≡ err out_of_bounds
unfolding and_then
unknown_origin = refl

-- Thread 1 has the least stack pointer, but thread 0, at the lower pc, is chosen: `minpc` is not reset
-- where `minsp` falls.
abbrev two_stacks : Threads
two_stacks zero = thread_at 2 60
two_stacks (suc zero) = thread_at 7 50
two_stacks _ = done

abbrev alone : ℕ → ℕ → Warp
alone i pc = record { mask = λ k. k == i; pc = pc }

higher_sp :
    rd_min_sp_pc_warp two_stacks (new_distance 3 0 0 100) (alone 0 2 ∷ alone 1 7 ∷ [])
    ≡ ok (alone 0 2)
unfolding rd_min_sp_pc_warp
higher_sp = refl
