-- ===== src/Heuristics/LongQueue.antt =====
-- Long.cpp and Long_IRB.cpp: the threads of the highest priority execute one group after the other.
use mmt_sync.Base.{
  ℕ, zero, suc, ◌+◌, ◌%◌, Bool, true, false, not, ◌&&◌, leb, ◌==◌, if◌then◌else◌, Option, none,
  some, search_for, Result, ok, err, out_of_bounds, no_return,
}
use mmt_sync.Heuristics.Interface.{Threads, Heuristic, activate, set_active}
use mmt_sync.Heuristics.Fhb.{Fhb, new_fhb, candidates, remember}
use mmt_sync.Heuristics.LongMin.{inside_block}

pub record Queue : Type 0 where
  pub fhb : Fhb
  pub para_executar : ℕ → Bool
  pub nafila : ℕ
  pub ref : Option ℕ

-- The constructor; `para_executar` is new memory, and is written before it is read.
unfoldable pub new_queue : (ℕ → Bool) → ℕ → Queue
unfolding new_fhb
new_queue memory tamanho = record {
  fhb = new_fhb tamanho;
  para_executar = memory;
  nafila = 0;
  ref = none;
}

-- The first i with a property.
unfoldable pub first_of : ℕ → (ℕ → Bool) → Option ℕ
unfolding search_for
first_of n p = search_for n (λ i. i) p

-- `if (nafila == 0)`: the threads of the highest priority are marked for execution.
unfoldable pub requeue : ℕ → Threads → Queue → Queue
unfolding candidates
requeue n t s = if s.nafila == 0 then record s { para_executar = candidates n t s.fhb } else s

-- The threads from j on that share the instruction of thread j.
abbrev pub group : Threads → ℕ → ℕ → Bool
group t j i = leb j i && not (t i).ignore && ((t i).pc == (t j).pc)

abbrev pub is_found : Option ℕ → Bool
is_found none = false
is_found (some r) = true

-- The group of thread j executes; with buffers of size 0 the C++ divides by zero here, if anybody
-- is in the group.
unfoldable pub run_group : ℕ → Threads → Queue → ℕ → Result (Threads × Queue)
unfolding first_of remember
run_group n t s j =
    let ref : Option ℕ = first_of n (group t j) in
    let next : Queue = record {
      fhb = remember t (group t j) s.fhb;
      para_executar = λ i. if group t j i then false else s.para_executar i;
      nafila = (j + 1) % n;
      ref = ref;
    } in
    if (s.fhb.tamanho_fhb == 0) && is_found ref
    then err out_of_bounds
    else ok (set_active t (group t j), next)

abbrev pub or_again :
    Result (Threads × Queue) → (ℕ → Result (Threads × Queue)) → Option ℕ → Result (Threads × Queue)
or_again again run none = again
or_again again run (some j) = run j

-- The `do … while(true)` on fuel; `no_return` means that the fuel ran out.
unfoldable pub schedule : ℕ → ℕ → Threads → Queue → Result (Threads × Queue)
unfolding requeue first_of run_group
schedule zero n t s = err no_return
schedule (suc fuel) n t s =
    let queued = requeue n t s in
    let again =
      schedule fuel n (set_active t (λ _. false)) (record queued { nafila = 0; ref = none }) in
    or_again again (run_group n (set_active t (λ _. false)) queued)
      (first_of n (λ j. leb queued.nafila j && queued.para_executar j))

-- Long_IRB.cpp
unfoldable pub long_irb : ℕ → ℕ → Threads → Queue → Result (Threads × Queue)
unfolding schedule
long_irb fuel n t s = schedule fuel n t s

-- Long.cpp: inside a basic block the reference thread goes on.
unfoldable pub long : ℕ → ℕ → Threads → Queue → Result (Threads × Queue)
unfolding schedule activate
long fuel n t s = if inside_block t s.ref then ok (activate t s.ref, s) else schedule fuel n t s

abbrev pub LongIrb : ℕ → Heuristic Queue
LongIrb fuel = record {
  choose_threads = long_irb fuel;
  register_instruction = λ insn tid sequence s. s;
}

abbrev pub LongHeuristic : ℕ → Heuristic Queue
LongHeuristic fuel = record {
  choose_threads = long fuel;
  register_instruction = λ insn tid sequence s. s;
}
