-- ===== src/Tracer/Instrument.antt =====
-- `Instruction` of Tools/insList.cpp: which functions are called before (or after) an instruction of
-- the traced program, with what; and the calls themselves. What the Pin library answers about an
-- instruction is a record, and so are the values it passes when the instruction runs. A value of
-- a register is a number of its bytes.
use mmt_sync.Base.{ℕ, suc, ◌+◌, ◌^◌, List, [], ◌∷◌, ◌++◌, Bool, not, ◌&&◌, if◌then◌else◌}
use mmt_sync.Trace.{
  is_branch_bit, is_direct_branch_bit, is_call_bit, is_direct_call_bit, is_procedure_call_bit,
  is_ret_bit, has_fall_through_bit,
}
use mmt_sync.Tracer.Defs.{
  Tracer, number_bytes, doprint, exec_pragma, is_printing, print_memory, print_register_data,
  print_register, print_register_ref, print_register_stack,
}
use mmt_sync.Tracer.Events.{dopragma}

-- The kinds of registers that are told apart.
pub data Register : Type 0 where
  stack : Register
  x87 : Register
  floating : Register
  mmx : Register
  xmm : Register
  common : Register

pub record Operand : Type 0 where
  pub is_read : Bool
  pub is_written : Bool

-- The answers of the Pin library about an instruction.
pub record Ins : Type 0 where
  pub shared_lib : Bool
  pub in_pragma_function : Bool
  pub calls_pragma_function : Bool
  pub loads_pragma : Bool
  pub operands : List Operand
  pub registers : List Register
  pub is_branch : Bool
  pub is_direct_branch : Bool
  pub is_call : Bool
  pub is_procedure_call : Bool
  pub is_direct_call : Bool
  pub is_ret : Bool
  pub has_fall_through : Bool

-- The command line: `include_shared`, `full_analysis`; and the number of bytes in front of the
-- registers of an FXSAVE area.
pub record Knobs : Type 0 where
  pub include_shared : Bool
  pub full_analysis : Bool
  pub x87_size : ℕ

-- A call that `INS_InsertCall` inserts; the operand and the register are given by their numbers.
pub data AnalysisCall : Type 0 where
  call_exec_pragma : AnalysisCall
  call_dopragma : AnalysisCall
  call_doprint : ℕ → ℕ → ℕ → AnalysisCall
  call_print_memory : ℕ → AnalysisCall
  call_print_register : Register → ℕ → AnalysisCall

-- What is passed when the instruction runs: the register of the pragma, the pc and the stack
-- pointer, the address of each memory operand and the contents of each register.
pub record Values : Type 0 where
  pub argument : ℕ
  pub pc : ℕ
  pub sp : ℕ
  pub address : ℕ → ℕ
  pub register : ℕ → ℕ

abbrev pub as_count : Bool → ℕ
as_count b = if b then 1 else 0

unfoldable pub mem_acessos : List Operand → ℕ
mem_acessos [] = 0
mem_acessos (o ∷ os) = as_count o.is_read + as_count o.is_written + mem_acessos os

unfoldable pub register_size : ℕ → Register → ℕ
register_size x87_size stack = 8
register_size x87_size x87 = x87_size
register_size x87_size floating = 10
register_size x87_size mmx = 10
register_size x87_size xmm = 16
register_size x87_size common = 8

unfoldable pub regdata_size : ℕ → List Register → ℕ
unfolding register_size
regdata_size x87_size [] = 0
regdata_size x87_size (r ∷ rs) = register_size x87_size r + regdata_size x87_size rs

-- `if (b) flags |= flag;` for the flags one after the other, each with a bit of its own.
abbrev pub flag : Bool → ℕ → ℕ
flag b bit = if b then 2 ^ bit else 0

unfoldable pub ins_flags : Ins → ℕ
ins_flags i =
    flag i.is_branch is_branch_bit
    + flag i.is_direct_branch is_direct_branch_bit
    + flag i.is_call is_call_bit
    + flag i.is_procedure_call is_procedure_call_bit
    + flag i.is_direct_call is_direct_call_bit
    + flag i.is_ret is_ret_bit
    + flag i.has_fall_through has_fall_through_bit

-- The operands by the order in which their addresses are printed: k is the number of the first.
unfoldable pub accesses : ℕ → List Operand → List ℕ
accesses k [] = []
accesses k (o ∷ os) =
    (if o.is_read then k ∷ [] else [])
    ++ ((if o.is_written then k ∷ [] else []) ++ accesses (suc k) os)

unfoldable pub memory_calls : List ℕ → List AnalysisCall
memory_calls [] = []
memory_calls (k ∷ ks) = call_print_memory k ∷ memory_calls ks

unfoldable pub register_calls : ℕ → List Register → List AnalysisCall
register_calls k [] = []
register_calls k (r ∷ rs) = call_print_register r k ∷ register_calls (suc k) rs

unfoldable pub print_calls : Knobs → Ins → List AnalysisCall
unfolding mem_acessos regdata_size ins_flags accesses memory_calls register_calls
print_calls knobs i =
    if knobs.full_analysis
    then call_doprint (ins_flags i) (mem_acessos i.operands)
        (regdata_size knobs.x87_size i.registers)
      ∷ (memory_calls (accesses 0 i.operands) ++ register_calls 0 i.registers)
    else call_doprint (ins_flags i) 0 0 ∷ []

unfoldable pub instruction : Knobs → Ins → List AnalysisCall
unfolding print_calls
instruction knobs i =
    if i.shared_lib && not knobs.include_shared
    then []
    else if not i.shared_lib && i.in_pragma_function
    then []
    else if not i.shared_lib && i.calls_pragma_function
    then call_exec_pragma ∷ []
    else if not i.shared_lib && i.loads_pragma
    then call_dopragma ∷ []
    else print_calls knobs i

-- `print_register_87` and `print_register_st` print the bytes that Pin returns.
unfoldable pub print_fpstate : Tracer → List ℕ → Tracer
unfolding print_register_data
print_fpstate s bytes = if is_printing s then print_register_data s bytes else s

unfoldable pub run_register : ℕ → Tracer → Register → ℕ → Tracer
unfolding print_register print_register_ref print_register_stack print_fpstate number_bytes
run_register x87_size s stack v = print_register_stack s v
run_register x87_size s x87 v = print_fpstate s (number_bytes x87_size v)
run_register x87_size s floating v = print_fpstate s (number_bytes 10 v)
run_register x87_size s mmx v = print_register_ref s (number_bytes 10 v)
run_register x87_size s xmm v = print_register_ref s (number_bytes 16 v)
run_register x87_size s common v = print_register s v

unfoldable pub run_call : Knobs → ℕ → Values → Tracer → AnalysisCall → Tracer
unfolding exec_pragma dopragma doprint print_memory run_register
run_call knobs tid v s call_exec_pragma = exec_pragma s
run_call knobs tid v s call_dopragma = dopragma s v.argument
run_call knobs tid v s (call_doprint flags memops regops) = doprint s v.pc v.sp flags memops regops
run_call knobs tid v s (call_print_memory k) = print_memory tid s (v.address k) v.sp
run_call knobs tid v s (call_print_register r k) = run_register knobs.x87_size s r (v.register k)

-- The calls of one instruction, in the order in which they were inserted.
unfoldable pub run_calls : Knobs → ℕ → Values → Tracer → List AnalysisCall → Tracer
unfolding run_call
run_calls knobs tid v s [] = s
run_calls knobs tid v s (c ∷ cs) = run_calls knobs tid v (run_call knobs tid v s c) cs
