-- ===== src/Tests/Runs.antt =====
-- The simulator and its parts on two small traces.
use mmt_sync.Base.{ℕ, ◌+◌, ◌<◌, ◌≡◌, refl, total, arith, for}
use mmt_sync.Base.Int.{pos}
use mmt_sync.Trace.{
  open_file, read, read_header, read_body, read_number, read_numbers, read_pragmas, readf,
}
use mmt_sync.Trace.Decode.{decode, decode_fuel}
use mmt_sync.Heuristics.Simple.{MinPc}
use mmt_sync.Heuristics.Laws.{MinPc-IsHeuristic}
use mmt_sync.Simulation.Run.{start, simulation}
use mmt_sync.Simulation.Exact.{Ends, trace_length, simulation-Complete}
use mmt_sync.Base.{[], ◌∷◌, true, false, some, ok}
use mmt_sync.Trace.{Instruction}
use mmt_sync.Threads.{load}
use mmt_sync.Heuristics.Interface.{Threads}
use mmt_sync.Analyser.{
  Analyser, init, analyse, analyse_running, tally, tally_thread, count_cycles, start_fetch,
  cycle_thread, count_round, special_analyses, memory_analysis, registers_analysis, executes_equal,
  divergence_statistics,
}
use mmt_sync.Analyser.Consistent.{
  Round, IsBalanced, analyse-Round, analyse-IsBalanced, init-IsBalanced,
}
use mmt_sync.Simulation.Defs.{check_valid, check_thread, some_chosen, read_instructions, refill}
use mmt_sync.Base.{zero, suc, err, input_file_problem}
use mmt_sync.Simulation.Faults.{IsFileFault, check_valid-IsFileFault}
use mmt_sync.Simulation.Valid.{IsUnison, check_valid-IsUnison}
use mmt_sync.Simulation.Run.{State}
use mmt_sync.Simulation.Round.{Reads, Counts, read_instructions-Reads}
use mmt_sync.Simulation.Refill.{Refilled, refill-Refilled}
use mmt_sync.Tests.Data.{value_or, is_ok, ok-value_or, record_bytes, thread_at, files}

length_example : trace_length files 0 ≡ 1
unfolding decode decode_fuel read read_header read_body read_number read_numbers read_pragmas readf
length_example = refl

enough : total 2 (λ k. trace_length files k + 1) < 4
unfolding total decode decode_fuel read read_header read_body read_number read_numbers read_pragmas
    readf
enough = omega arith

simulation-Complete_example :
    Ends 2
      (trace_length files)
      (simulation MinPc 2 4 (start (λ _. thread_at 0 0) (λ _. pos 0) 10 files tt))
simulation-Complete_example =
    simulation-Complete MinPc 2 (MinPc-IsHeuristic 2) (λ _. thread_at 0 0) (λ _. pos 0) 10 files tt
      (omega arith) 4 enough

-- Two threads at one instruction.
abbrev pair : Threads
pair _ = thread_at 3 30

check_valid-pair : check_valid 2 pair ≡ ok 0
unfolding check_valid for check_thread some_chosen
check_valid-pair = refl

check_valid-IsUnison_example : IsUnison pair 2 0
check_valid-IsUnison_example = check_valid-IsUnison pair 2 0 check_valid-pair

abbrev begin : State (Unit {0})
begin = start (λ _. thread_at 0 0) (λ _. pos 0) 10 files tt

begin-Counts : Counts 2 begin.sim
unfolding start load total
begin-Counts = refl

read_instructions-Reads_example :
    ((k : ℕ)
      → k < 2
      → Reads (begin.sim.threads k) ((read_instructions MinPc 2 begin.sim).threads k))
    × Counts 2 (read_instructions MinPc 2 begin.sim)
read_instructions-Reads_example = read_instructions-Reads MinPc 2 begin.sim begin-Counts

refill-Refilled_example : Refilled MinPc 2 begin.sim (refill MinPc 2 begin.sim)
refill-Refilled_example = refill-Refilled MinPc 2 begin.sim

-- The record that `record_bytes` holds.
abbrev insn : Instruction
insn = record {
  pc = 1;
  sp = 2;
  bb_priority = 0;
  pragma_end_list = [];
  pragma_begin_list = 0;
  pragma_end_counter = 0;
  reg_size = 2;
  cf_flags = 0;
  mem_quant = 1;
  mem_address = 64 ∷ [];
  reg_data = 5 ∷ 6 ∷ [];
  barrier = false;
  basic_block = false;
  pragma_fun_call = false;
  pragma_fun_ret = false;
}

read_example : (read (open_file record_bytes)).0 ≡ some insn
unfolding read read_header read_body read_number read_numbers read_pragmas readf
read_example = refl

abbrev fresh : Analyser
fresh = init (λ _. pos 0) 10

abbrev analysed : Analyser
analysed = value_or fresh (analyse 2 pair fresh)

analyse-pair-is_ok : is_ok (analyse 2 pair fresh) ≡ true
unfolding init analyse analyse_running tally tally_thread count_cycles start_fetch cycle_thread
    count_round special_analyses memory_analysis registers_analysis executes_equal
    divergence_statistics for total
analyse-pair-is_ok = refl

analyse-pair : analyse 2 pair fresh ≡ ok analysed
analyse-pair = ok-value_or fresh (analyse 2 pair fresh) analyse-pair-is_ok

analyse-Round_example : Round 2 pair fresh analysed
analyse-Round_example = analyse-Round 2 pair fresh analysed analyse-pair

analyse-IsBalanced_example : IsBalanced 2 analysed
analyse-IsBalanced_example =
    analyse-IsBalanced 2 pair fresh analysed analyse-pair (init-IsBalanced (λ _. pos 0) 10 2)

-- Two threads at one instruction, of which the second has read an address more.
abbrev uneven : Threads
uneven zero = thread_at 3 30
uneven _ = record (thread_at 3 30) { mem_quant = 1; mem_address = 64 ∷ [] }

check_valid-uneven : check_valid 2 uneven ≡ err input_file_problem
unfolding check_valid for check_thread some_chosen
check_valid-uneven = refl

check_valid-IsFileFault_example : IsFileFault input_file_problem
check_valid-IsFileFault_example =
    check_valid-IsFileFault 2 uneven 3 1 input_file_problem same_pc (omega arith) refl
      check_valid-uneven
  where
    same_pc : (k : ℕ) → k < 2 → (uneven k).is_active ≡ true → (uneven k).pc ≡ 3
    same_pc zero lt a = refl
    same_pc (suc k) lt a = refl
