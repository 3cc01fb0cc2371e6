-- ===== src/Tracer/FlagBits.antt =====
-- The flags that `Instruction` of Tools/insList.cpp sets, as Execute/src/InstructionFlags.hpp reads
-- them.
use mmt_sync.Base.{ℕ, ◌≡◌, refl, not, ◌&&◌, ◌||◌, arith}
use mmt_sync.Trace.{
  has_bit, is_end_hardware_block, is_direct_branch, is_conditional_branch, is_unconditional_branch,
  is_indirect_branch, is_indirect_call, is_function_call_flag, is_function_ret_flag,
}
use mmt_sync.Tracer.Instrument.{Ins, ins_flags}

record HasBits (i : Ins) (flags : ℕ) : Type 0 where
  branch : has_bit 0 flags ≡ i.is_branch
  direct_branch : has_bit 1 flags ≡ i.is_direct_branch
  call : has_bit 2 flags ≡ i.is_call
  direct_call : has_bit 3 flags ≡ i.is_direct_call
  procedure_call : has_bit 4 flags ≡ i.is_procedure_call
  ret : has_bit 5 flags ≡ i.is_ret
  fall_through : has_bit 6 flags ≡ i.has_fall_through

ins_flags-HasBits : (i : Ins) → HasBits i (ins_flags i)
unfolding ins_flags
ins_flags-HasBits i = record {
  branch = ground arith;
  direct_branch = ground arith;
  call = ground arith;
  direct_call = ground arith;
  procedure_call = ground arith;
  ret = ground arith;
  fall_through = ground arith;
}

-- What the simulator asks of the flags, by what Pin had answered.
pub record HasFlags (i : Ins) (flags : ℕ) : Type 0 where
  pub ends_block :
      is_end_hardware_block flags ≡ i.is_branch || i.is_call || i.is_ret || not i.has_fall_through
  pub direct : is_direct_branch flags ≡ i.is_direct_branch
  pub conditional : is_conditional_branch flags ≡ i.is_direct_branch && i.has_fall_through
  pub unconditional : is_unconditional_branch flags ≡ i.is_direct_branch && not i.has_fall_through
  pub indirect : is_indirect_branch flags ≡ i.is_branch && not i.is_direct_branch
  pub indirect_call : is_indirect_call flags ≡ i.is_procedure_call && not i.is_direct_call
  pub function_call : is_function_call_flag flags ≡ i.is_procedure_call
  pub function_ret : is_function_ret_flag flags ≡ i.is_ret

-- For every instruction, the functions of InstructionFlags.hpp give on the byte of flags that the
-- tool writes what Pin has answered about the instruction: the ends of hardware blocks, the kinds of
-- branches, indirect calls, calls and returns of functions.
pub ins_flags-HasFlags : (i : Ins) → HasFlags i (ins_flags i)
unfolding is_end_hardware_block is_direct_branch is_conditional_branch is_unconditional_branch
    is_indirect_branch is_indirect_call is_function_call_flag is_function_ret_flag
ins_flags-HasFlags i =
    let bits = ins_flags-HasBits i in
    record {
      ends_block = rw (bits.branch, bits.call, bits.ret, bits.fall_through) refl;
      direct = bits.direct_branch;
      conditional = rw (bits.direct_branch, bits.fall_through) refl;
      unconditional = rw (bits.direct_branch, bits.fall_through) refl;
      indirect = rw (bits.branch, bits.direct_branch) refl;
      indirect_call = rw (bits.procedure_call, bits.direct_call) refl;
      function_call = bits.procedure_call;
      function_ret = bits.ret;
    }
