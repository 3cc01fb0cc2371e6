-- ===== src/Tests/Writer.antt =====
-- A thread that executes a load, a call of a function that starts with a pragma, an instruction in
-- a critical section, and a jump after which it ends.
use mmt_sync.Base.{ℕ, ◌+◌, ◌≤◌, ◌<◌, ◌≡◌, refl, List, [], ◌∷◌, Bool, true, false, map, some, arith}
use mmt_sync.Trace.{read}
use mmt_sync.Tracer.{
  Tracer, Ins, Knobs, Values, xmm, common, stack, code_fun_begin, ins_flags, mem_acessos,
  regdata_size,
}
use mmt_sync.Tracer.Bytes.{file_of}
use mmt_sync.Tracer.Entry.{Executed, ExecutedFits, executed_bytes, recorded, read-executed_bytes}
use mmt_sync.Tracer.Whole.{trace_of}
use mmt_sync.Tracer.Inserted.{InsFits}
use mmt_sync.Tracer.FlagBits.{HasFlags, ins_flags-HasFlags}
use mmt_sync.Tracer.Pcs.{shown_all}
use mmt_sync.Tracer.Run.{
  Event, executes, locks, unlocks, exits, handle_all, all_add, opens, AllFits, EventFits,
  handle_all-trace,
}

-- Memory before the thread starts.
abbrev unset : Tracer
unset = record {
  opened = false;
  written = [];
  sp_base = 0;
  secao_critica = 0;
  hard_basic_block_begin = false;
  barrier_flag = false;
  basic_block_priority = 0;
  ignorar_print = false;
  delayed_branch = false;
  fun_call_begin = false;
  fun_call_end = false;
  dom_begin_list = 0;
  dom_end_counter = 0;
  dom_end_list = λ _. 0;
  stored_delayed_call = record {
    pc = 0;
    sp = 0;
    flags = 0;
    memops = 0;
    regops = 0;
    basic_block_priority = 0;
  };
  stored_delayed_memory_quan = 0;
  stored_delayed_memory = λ _. 0;
  stored_delayed_regis_quan = 0;
  stored_delayed_regis = λ _. 0;
}

abbrev knobs : Knobs
knobs = record { include_shared = false; full_analysis = true; x87_size = 32 }

abbrev load : Ins
load = record {
  shared_lib = false;
  in_pragma_function = false;
  calls_pragma_function = false;
  loads_pragma = false;
  operands = (record { is_read = true; is_written = false }) ∷ [];
  registers = stack ∷ xmm ∷ [];
  is_branch = false;
  is_direct_branch = false;
  is_call = false;
  is_procedure_call = false;
  is_direct_call = false;
  is_ret = false;
  has_fall_through = true;
}

abbrev jump : Ins
jump = record load {
  operands = [];
  registers = common ∷ [];
  is_branch = true;
  is_direct_branch = true;
}

abbrev call : Ins
call = record load {
  operands = (record { is_read = false; is_written = true }) ∷ [];
  is_call = true;
  is_procedure_call = true;
  is_direct_call = true;
}

abbrev pragma_call : Ins
pragma_call = record call { calls_pragma_function = true }

abbrev pragma_code : Ins
pragma_code = record load { loads_pragma = true }

abbrev values_at : ℕ → Values
values_at pc = record {
  argument = code_fun_begin;
  pc = pc;
  sp = 4000;
  address = λ _. 4040;
  register = λ k. 1000 + k;
}

abbrev events : List Event
events =
    executes load (values_at 10)
    ∷ executes call (values_at 11)
    ∷ executes pragma_call (values_at 12)
    ∷ executes pragma_code (values_at 13)
    ∷ executes pragma_call (values_at 14)
    ∷ locks
    ∷ executes load (values_at 15)
    ∷ unlocks
    ∷ executes load (values_at 16)
    ∷ executes jump (values_at 17)
    ∷ exits
    ∷ []

-- The load, the call marked as one, and the load behind the critical section.
added :
    map {B = ℕ × Bool}
      (λ i. (i.pc, i.pragma_fun_call))
      (all_add knobs 1 false (opens false unset 5000 0) events)
    ≡ (10, false) ∷ (11, true) ∷ (16, false) ∷ []
unfolding all_add opens
added = refl

values_at-InsFits :
    (i : Ins) (pc : ℕ)
    → pc < 256
    → mem_acessos i.operands ≤ 4
    → regdata_size 32 i.registers < 256
    → InsFits knobs i (values_at pc)
values_at-InsFits i pc lt quant size = record {
  pc = omega arith;
  quant = quant;
  size = size;
  addresses = λ k. omega arith;
}

load-InsFits : (pc : ℕ) → pc < 256 → InsFits knobs load (values_at pc)
unfolding mem_acessos regdata_size
load-InsFits pc lt = values_at-InsFits load pc lt (omega arith) (omega arith)

call-InsFits : (pc : ℕ) → pc < 256 → InsFits knobs call (values_at pc)
unfolding mem_acessos regdata_size
call-InsFits pc lt = values_at-InsFits call pc lt (omega arith) (omega arith)

jump-InsFits : InsFits knobs jump (values_at 17)
unfolding mem_acessos regdata_size
jump-InsFits = values_at-InsFits jump 17 (omega arith) (omega arith) (omega arith)

events-AllFits : AllFits knobs events
unfolding AllFits EventFits mem_acessos regdata_size
events-AllFits =
    let few : mem_acessos load.operands ≤ 4 = omega arith in
    let small : regdata_size 32 load.registers < 256 = omega arith in
    (
      load-InsFits 10 (omega arith),
      (
        call-InsFits 11 (omega arith),
        (
          values_at-InsFits pragma_call 12 (omega arith) few small,
          (
            values_at-InsFits pragma_code 13 (omega arith) few small,
            (
              values_at-InsFits pragma_call 14 (omega arith) few small,
              (
                tt,
                (
                  load-InsFits 15 (omega arith),
                  (tt, (load-InsFits 16 (omega arith), (jump-InsFits, (tt, tt)))),
                ),
              ),
            ),
          ),
        ),
      ),
    )

-- The load, the call, the load outside the critical section and the jump, which still waits.
events-shown :
    shown_all knobs (record { opened = true; off = false; depth = 0 }) events
    ≡ 10 ∷ 11 ∷ 16 ∷ 17 ∷ []
unfolding shown_all
events-shown = refl

events-trace :
    trace_of (handle_all knobs 1 false (opens false unset 5000 0) events).written
    ≡ all_add knobs 1 false (opens false unset 5000 0) events
events-trace = handle_all-trace knobs 1 false unset 5000 0 events events-AllFits

ins_flags-HasFlags_example : HasFlags call (ins_flags call)
ins_flags-HasFlags_example = ins_flags-HasFlags call

-- A load after a barrier, with a priority and a pragma of one end.
abbrev marked : Tracer
marked = record unset {
  opened = true;
  sp_base = 5000;
  barrier_flag = true;
  basic_block_priority = 3;
  dom_begin_list = 70;
  dom_end_counter = 1;
}

abbrev executed : Executed
executed = record { pc = 10; sp = 4000; flags = 64; addresses = 4040 ∷ []; regs = 1 ∷ 2 ∷ [] }

executed-ExecutedFits : ExecutedFits marked executed
executed-ExecutedFits = record {
  pc = omega arith;
  flags = omega arith;
  quant = omega arith;
  size = omega arith;
  addresses = (omega arith, tt);
  priority = omega arith;
  pragmas = record { begin = omega arith; counter = omega arith; ends = (omega arith, tt) };
}

read-executed_bytes_example :
    read (file_of (executed_bytes marked executed (1 ∷ [])) false)
    ≡ (some (recorded marked executed), file_of (1 ∷ []) false)
read-executed_bytes_example = read-executed_bytes marked executed executed-ExecutedFits (1 ∷ [])
