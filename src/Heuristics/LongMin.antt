-- ===== src/Heuristics/LongMin.antt =====
-- Long_MinPC.cpp and Long_MinSP_PC.cpp: the highest priority, then MinPC or MinSP-PC among equals.
use mmt_sync.Base.{
  ℕ, Bool, false, not, ◌&&◌, ◌||◌, ltb, ◌==◌, if◌then◌else◌, Option, none, some, pick, Result, ok,
  err, no_thread_chosen, out_of_bounds,
}
use mmt_sync.Heuristics.Interface.{Threads, Heuristic, activate, shares}
use mmt_sync.Heuristics.Simple.{lower_pc, lower_sp_pc}
use mmt_sync.Heuristics.Fhb.{Fhb, new_fhb, candidates, remember}

pub record Long : Type 0 where
  pub fhb : Fhb
  pub ref : Option ℕ

-- The constructors, with the size that `sscanf` reads.
unfoldable pub new_long : ℕ → Long
unfolding new_fhb
new_long tamanho = record { fhb = new_fhb tamanho; ref = none }

-- `ref != -1 && !(t[ref].basic_block || t[ref].bb_priority > 0) && !t[ref].ignore`: the reference
-- thread is inside a basic block.
abbrev pub inside_block : Threads → Option ℕ → Bool
inside_block t none = false
inside_block t (some ref) =
    not ((t ref).basic_block || ltb 0 (t ref).bb_priority) && not (t ref).ignore

-- "Marcando threads em execução": with a buffer of size 0 the C++ divides by zero here.
unfoldable pub mark : Threads → Long → Option ℕ → Result (Threads × Long)
unfolding activate remember
mark t s none = err no_thread_chosen
mark t s (some ref) =
    if s.fhb.tamanho_fhb == 0
    then err out_of_bounds
    else ok (
      activate t (some ref),
      record { fhb = remember t (shares t (some ref)) s.fhb; ref = some ref },
    )

-- Long_MinPC.cpp
unfoldable pub long_min_pc : ℕ → Threads → Long → Result (Threads × Long)
unfolding activate mark candidates pick
long_min_pc n t s =
    if inside_block t s.ref
    then ok (activate t s.ref, s)
    else mark t s (pick n (candidates n t s.fhb) (lower_pc t))

-- Long_MinSP_PC.cpp
unfoldable pub long_min_sp_pc : ℕ → Threads → Long → Result (Threads × Long)
unfolding activate mark candidates pick
long_min_sp_pc n t s =
    if inside_block t s.ref
    then ok (activate t s.ref, s)
    else mark t s (pick n (candidates n t s.fhb) (lower_sp_pc t))

abbrev pub LongMinPc : Heuristic Long
LongMinPc = record { choose_threads = long_min_pc; register_instruction = λ insn tid sequence s. s }

abbrev pub LongMinSpPc : Heuristic Long
LongMinSpPc = record {
  choose_threads = long_min_sp_pc;
  register_instruction = λ insn tid sequence s. s;
}
