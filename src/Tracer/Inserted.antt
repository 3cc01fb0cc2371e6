-- ===== src/Tracer/Inserted.antt =====
-- Tools/insList.cpp: an instruction with all the calls that are inserted for it, by the kinds that
-- `Instruction` tells apart.
use mmt_sync.Base.{
  ℕ, ◌^◌, ◌<◌, ◌≤◌, ◌≡◌, refl, ap, sym, ◌∙◌, subst, List, [], Bool, true, false, not, ◌&&◌, length,
  arith, if_elim, if_elim₂, if◌then◌else◌, Bool-cases, inl, inr,
}
use mmt_sync.Trace.{Instruction}
use mmt_sync.Tracer.Defs.{Tracer, is_printing, is_writing, exec_pragma}
use mmt_sync.Tracer.Instrument.{
  Register, Ins, Knobs, Values, AnalysisCall, flag, ins_flags, mem_acessos, regdata_size, accesses,
  print_calls, instruction, memory_calls, register_calls, run_call, run_calls,
}
use mmt_sync.Tracer.Counts.{length-accesses}
use mmt_sync.Tracer.Sound.{Sound, Step, Step-refl}
use mmt_sync.Tracer.Executes.{all_calls, called, PrintedFits}
use mmt_sync.Tracer.Calls.{all_calls-Step}
use mmt_sync.Tracer.Quiet.{all_calls-quiet}
use mmt_sync.Tracer.Pragmas.{modes-Step, pragma_adds, dopragma-Step}

-- What is printed of an instruction, by the command line.
abbrev pub printed_accesses : Knobs → Ins → List ℕ
printed_accesses knobs i = if knobs.full_analysis then accesses 0 i.operands else []

abbrev pub printed_registers : Knobs → Ins → List Register
printed_registers knobs i = if knobs.full_analysis then i.registers else []

-- An instruction of at most four accesses and 255 bytes of registers, at addresses of 64 bits.
pub record InsFits (knobs : Knobs) (i : Ins) (v : Values) : Type 0 where
  pub pc : v.pc < 256 ^ 8
  pub quant : mem_acessos i.operands ≤ 4
  pub size : regdata_size knobs.x87_size i.registers < 256
  pub addresses : (k : ℕ) → v.address k < 256 ^ 8

flag-le : (b : Bool) (k : ℕ) → flag b k ≤ 2 ^ k
flag-le true k = omega arith
flag-le false k = omega arith

ins_flags-lt : (i : Ins) → ins_flags i < 256
unfolding ins_flags
ins_flags-lt i = omega (
  arith,
  flag-le i.is_branch 0,
  flag-le i.is_direct_branch 1,
  flag-le i.is_call 2,
  flag-le i.is_procedure_call 4,
  flag-le i.is_direct_call 3,
  flag-le i.is_ret 5,
  flag-le i.has_fall_through 6,
)

-- The counts that `doprint` is given are those of the calls behind it.
pub print_calls-all_calls :
    (knobs : Knobs) (i : Ins)
    → print_calls knobs i
      ≡ all_calls knobs (ins_flags i) (printed_accesses knobs i) (printed_registers knobs i)
unfolding print_calls memory_calls register_calls regdata_size
print_calls-all_calls knobs i = elim (Bool-cases knobs.full_analysis) [
  | inl e ↦ rw (e, sym (length-accesses 0 i.operands)) refl
  | inr e ↦ rw e refl
]

pub InsFits-PrintedFits :
    (knobs : Knobs) (i : Ins) (v : Values)
    → InsFits knobs i v
    → PrintedFits knobs v (ins_flags i) (printed_accesses knobs i) (printed_registers knobs i)
unfolding regdata_size
InsFits-PrintedFits knobs i v fits = record {
  pc = fits.pc;
  byte = ins_flags-lt i;
  quant =
      if_elim (λ ks. length ks ≤ 4) knobs.full_analysis _ []
        (λ e. omega (arith, length-accesses 0 i.operands, fits.quant)) (λ e. omega arith);
  size =
      if_elim (λ rs. regdata_size knobs.x87_size rs < 256) knobs.full_analysis _ [] (λ e. fits.size)
        (λ e. omega arith);
  addresses = fits.addresses;
}

-- What an instruction adds to the trace file.
abbrev pub instruction_adds : Knobs → ℕ → Tracer → Ins → Values → List Instruction
instruction_adds knobs tid s i v =
    if i.shared_lib && not knobs.include_shared
    then []
    else if not i.shared_lib && i.in_pragma_function
    then []
    else if not i.shared_lib && i.calls_pragma_function
    then []
    else if not i.shared_lib && i.loads_pragma
    then pragma_adds s v.argument
    else if is_printing s
    then called knobs tid v (ins_flags i) (printed_accesses knobs i) (printed_registers knobs i) s
    else []

module _ (knobs : Knobs) (tid : ℕ) (s : Tracer) (i : Ins) (v : Values) (fits : InsFits knobs i v)
    (sound : Sound s) where
  print_calls-Step : Step s (run_calls knobs tid v s (print_calls knobs i)) (
      if is_printing s
      then called knobs tid v (ins_flags i) (printed_accesses knobs i) (printed_registers knobs i) s
      else [])
  print_calls-Step =
      let ks = printed_accesses knobs i in
      let rs = printed_registers knobs i in
      let flags = ins_flags i in
      let same = sym (ap (run_calls knobs tid v s) (print_calls-all_calls knobs i)) in
      if_elim (Step s (run_calls knobs tid v s (print_calls knobs i))) (is_printing s) _ []
        (λ on.
          subst (λ t. Step s t (called knobs tid v flags ks rs s)) same
            (all_calls-Step knobs tid v flags ks rs (InsFits-PrintedFits knobs i v fits) s on
              sound))
        (λ off.
          subst (λ t. Step s t []) (sym (all_calls-quiet knobs tid v s off flags ks rs) ∙ same)
            (Step-refl s sound))

  exec_pragma-Step : Step s (exec_pragma s) []
  unfolding exec_pragma
  exec_pragma-Step =
      if_elim (λ t. Step s t []) (is_writing s) _ s
        (λ e.
          modes-Step s sound s.opened (not s.ignorar_print) s.fun_call_end s.barrier_flag
            s.secao_critica)
        (λ e. Step-refl s sound)

  -- For an instruction
  pub instruction-Step :
      Step s (run_calls knobs tid v s (instruction knobs i)) (instruction_adds knobs tid s i v)
  unfolding instruction run_calls run_call
  instruction-Step =
      let P : List AnalysisCall → List Instruction → Type 0 =
        λ cs xs. Step s (run_calls knobs tid v s cs) xs in
      if_elim₂ P (i.shared_lib && not knobs.include_shared) _ _ _ _ (λ e. Step-refl s sound)
        (λ e0.
          if_elim₂ P (not i.shared_lib && i.in_pragma_function) _ _ _ _ (λ e. Step-refl s sound)
            (λ e1.
              if_elim₂ P (not i.shared_lib && i.calls_pragma_function) _ _ _ _
                (λ e. exec_pragma-Step)
                (λ e2.
                  if_elim₂ P (not i.shared_lib && i.loads_pragma) _ _ _ _
                    (λ e. dopragma-Step s sound v.argument) (λ e. print_calls-Step))))
