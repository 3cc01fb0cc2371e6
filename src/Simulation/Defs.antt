-- ===== src/Simulation/Defs.antt =====
-- Execute/src/Simulation.hpp and Simulation.cpp: the state and its operations.
use mmt_sync.Base.{
  ℕ, zero, suc, ◌+◌, ◌-◌, ◌%◌, ◌^◌, List, [], ◌∷◌, ◌++◌, Option, none, some, true, false, not, ◌&&◌,
  ◌||◌, ltb, ◌==◌, if◌then◌else◌, length, for, update, Result, ok, err, ◌>>=◌, wrong_addresses,
  different_instructions, input_file_problem, no_thread_chosen,
}
use mmt_sync.Trace.{Instruction, read}
use mmt_sync.Threads.{fetch}
use mmt_sync.Heuristics.Interface.{Threads, Heuristic}

abbrev pub readahead_horizon : ℕ
readahead_horizon = 1000

-- The state of `class Simulation` but for the analyser: `H` is the state of the heuristic.
pub record Simulator (H : Type 0) : Type 0 where
  pub threads : Threads
  pub heuristic : H
  pub horizon_sequence : ℕ → ℕ
  pub finished : ℕ
  pub waiting_in_barrier : ℕ

module _ {H : Type 0} (h : Heuristic H) where
  -- The `while` of `refill` for thread i, with the room left in its queue. `read` is not called
  -- when there is none.
  unfoldable pub fill : ℕ → ℕ → Simulator H → Simulator H
  fill i zero s = s
  fill i (suc room) s = elim (read (s.threads i).thread_arq).0 [
    | none ↦ record s {
      threads = update s.threads i (record (s.threads i) {
        not_eof = false;
        thread_arq = (read (s.threads i).thread_arq).1;
      });
    }
    | some insn ↦ fill i room (record s {
      threads = update s.threads i (record (s.threads i) {
        instruction_queue = (s.threads i).instruction_queue ++ insn ∷ [];
        thread_arq = (read (s.threads i).thread_arq).1;
      });
      heuristic = h.register_instruction insn i (s.horizon_sequence i) s.heuristic;
      horizon_sequence = update s.horizon_sequence i ((s.horizon_sequence i + 1) % 2 ^ 64);
    })
  ]

  unfoldable pub refill_thread : ℕ → Simulator H → Simulator H
  unfolding fill
  refill_thread i s =
      if (s.threads i).not_eof
      then fill i (readahead_horizon - length (s.threads i).instruction_queue) s
      else s

  unfoldable pub refill : ℕ → Simulator H → Simulator H
  unfolding for refill_thread
  refill n s = for n refill_thread s

-- `threads[k].barrier = false; threads[k].ignore = threads[k].finished;` for every k.
unfoldable pub release_barrier : Threads → Threads
release_barrier t k = record (t k) { barrier = false; ignore = (t k).finished }

-- A thread that has met a barrier: the last one opens it.
unfoldable pub arrive : {H : Type 0} → ℕ → Simulator H → Simulator H
unfolding release_barrier
arrive n s =
    if s.waiting_in_barrier + 1 == n
    then record s { waiting_in_barrier = 0; threads = release_barrier s.threads }
    else record s { waiting_in_barrier = s.waiting_in_barrier + 1 }

-- The next instruction of thread i, or its end.
unfoldable pub advance : {H : Type 0} → ℕ → ℕ → List Instruction → Simulator H → Simulator H
unfolding arrive fetch
advance n i [] s = record s {
  threads = update s.threads i (record (s.threads i) { finished = true });
  finished = s.finished + 1;
}
advance n i (insn ∷ rest) s =
    let fetched = record s {
      threads = update s.threads i (record (fetch insn (s.threads i)) { instruction_queue = rest });
    } in
    if insn.barrier then arrive n fetched else fetched

-- `threads[i].ignore = threads[i].finished || threads[i].barrier`
unfoldable pub set_ignore : {H : Type 0} → ℕ → Simulator H → Simulator H
set_ignore i s = record s {
  threads =
      update s.threads i
        (record (s.threads i) { ignore = (s.threads i).finished || (s.threads i).barrier });
}

-- The body of the loop of `read_instructions`.
unfoldable pub read_thread : {H : Type 0} → ℕ → ℕ → Simulator H → Simulator H
unfolding advance set_ignore
read_thread n i s =
    if not ((s.threads i).finished) && (s.threads i).is_active
    then set_ignore i (advance n i (s.threads i).instruction_queue s)
    else s

-- `read_instructions`; its result is the field `finished` of the new state.
unfoldable pub read_instructions : {H : Type 0} → Heuristic H → ℕ → Simulator H → Simulator H
unfolding refill for read_thread
read_instructions h n s = for n (read_thread n) (refill h n s)

-- `check_valid`: the first active thread, against which the later ones are held.
unfoldable pub check_thread : Threads → ℕ → Result (Option ℕ) → Result (Option ℕ)
check_thread t i (err e) = err e
check_thread t i (ok none) =
    if (t i).is_active
    then (if ltb 4 (t i).mem_quant then err wrong_addresses else ok (some i))
    else ok none
check_thread t i (ok (some first)) =
    if (t i).is_active
    then (if not ((t first).pc == (t i).pc)
        then err different_instructions
        else if not ((t first).mem_quant == (t i).mem_quant)
            || not ((t first).reg_size == (t i).reg_size)
        then err input_file_problem
        else ok (some first))
    else ok (some first)

unfoldable pub some_chosen : Option ℕ → Result ℕ
some_chosen none = err no_thread_chosen
some_chosen (some first) = ok first

unfoldable pub check_valid : ℕ → Threads → Result ℕ
unfolding for check_thread some_chosen
check_valid n t = for n (check_thread t) (ok none) >>= some_chosen
