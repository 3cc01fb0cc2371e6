-- ===== src/Trace/Flags.antt =====
-- Execute/src/InstructionFlags.hpp. The flags of a byte are its bits: `flags & 2^k` is not zero
-- exactly if the k-th binary digit is odd.
use mmt_sync.Base.{ℕ, ◌/◌, ◌%◌, ◌^◌, Bool, ◌&&◌, ◌||◌, not, ◌==◌}

abbrev pub has_bit : ℕ → ℕ → Bool
has_bit k x = x / 2 ^ k % 2 == 1

abbrev pub is_branch_bit : ℕ
is_branch_bit = 0

abbrev pub is_direct_branch_bit : ℕ
is_direct_branch_bit = 1

abbrev pub is_call_bit : ℕ
is_call_bit = 2

abbrev pub is_direct_call_bit : ℕ
is_direct_call_bit = 3

abbrev pub is_procedure_call_bit : ℕ
is_procedure_call_bit = 4

abbrev pub is_ret_bit : ℕ
is_ret_bit = 5

abbrev pub has_fall_through_bit : ℕ
has_fall_through_bit = 6

-- The constant `IsBranch` as Lee.cpp tests it.
abbrev pub is_branch : ℕ → Bool
is_branch flags = has_bit is_branch_bit flags

unfoldable pub is_end_hardware_block : ℕ → Bool
is_end_hardware_block flags =
    has_bit is_branch_bit flags
    || has_bit is_call_bit flags
    || has_bit is_ret_bit flags
    || not (has_bit has_fall_through_bit flags)

unfoldable pub is_direct_branch : ℕ → Bool
is_direct_branch flags = has_bit is_direct_branch_bit flags

unfoldable pub is_conditional_branch : ℕ → Bool
is_conditional_branch flags =
    has_bit is_direct_branch_bit flags && has_bit has_fall_through_bit flags

unfoldable pub is_unconditional_branch : ℕ → Bool
is_unconditional_branch flags =
    has_bit is_direct_branch_bit flags && not (has_bit has_fall_through_bit flags)

unfoldable pub is_indirect_branch : ℕ → Bool
is_indirect_branch flags = has_bit is_branch_bit flags && not (has_bit is_direct_branch_bit flags)

unfoldable pub is_indirect_call : ℕ → Bool
is_indirect_call flags =
    has_bit is_procedure_call_bit flags && not (has_bit is_direct_call_bit flags)

unfoldable pub is_function_call_flag : ℕ → Bool
is_function_call_flag flags = has_bit is_procedure_call_bit flags

unfoldable pub is_function_ret_flag : ℕ → Bool
is_function_ret_flag flags = has_bit is_ret_bit flags
