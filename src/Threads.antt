-- ===== src/Threads.antt =====
-- Execute/src/Thread.hpp and Thread.cpp: `class Thread`, with `load` and `fetch`.
use mmt_sync.Base.{ℕ, List, [], ◌++◌, Bool, true, false, ltb, if◌then◌else◌, length, drop}
use mmt_sync.Trace.{File, open_file, Instruction}

pub record Thread : Type 0 where
  pub thread_arq : File
  pub instruction_queue : List Instruction
  pub not_eof : Bool
  pub barrier : Bool
  pub finished : Bool
  pub is_active : Bool
  pub ignore : Bool
  pub pc : ℕ
  pub sp : ℕ
  pub basic_block : Bool
  pub cf_flags : ℕ
  pub mem_quant : ℕ
  pub reg_size : ℕ
  pub mem_address : List ℕ
  pub reg_data : List ℕ
  pub bb_priority : ℕ
  pub pragma_fun_call : Bool
  pub pragma_fun_ret : Bool
  pub pragma_begin_list : ℕ
  pub pragma_end_counter : ℕ
  pub pragma_end_list : List ℕ

-- `std::copy` of `xs` over the first entries of `old`.
abbrev pub copy_over : List ℕ → List ℕ → List ℕ
copy_over xs old = xs ++ drop (length xs) old

-- The constructor `Thread()` and `load`, on a file that `fopen` opens with these bytes. The fields
-- that they leave as the memory had them (`barrier`, `pc`, `sp`, `mem_quant`, `reg_size`,
-- `bb_priority` and the arrays) are taken from `memory`.
unfoldable pub load : Thread → List ℕ → Thread
load memory bytes = record memory {
  thread_arq = open_file bytes;
  instruction_queue = [];
  not_eof = true;
  finished = false;
  is_active = true;
  ignore = false;
  basic_block = false;
  cf_flags = 0;
  pragma_fun_call = false;
  pragma_fun_ret = false;
  pragma_begin_list = 0;
  pragma_end_counter = 0;
}

unfoldable pub fetch : Instruction → Thread → Thread
fetch insn t = record t {
  pc = insn.pc;
  sp = insn.sp;
  barrier = insn.barrier;
  basic_block = insn.basic_block;
  cf_flags = insn.cf_flags;
  bb_priority = insn.bb_priority;
  pragma_fun_call = insn.pragma_fun_call;
  pragma_fun_ret = insn.pragma_fun_ret;
  pragma_begin_list = insn.pragma_begin_list;
  pragma_end_counter = insn.pragma_end_counter;
  pragma_end_list =
      if ltb 0 insn.pragma_end_counter
      then copy_over insn.pragma_end_list t.pragma_end_list
      else t.pragma_end_list;
  mem_quant = insn.mem_quant;
  mem_address = copy_over insn.mem_address t.mem_address;
  reg_size = insn.reg_size;
  reg_data = copy_over insn.reg_data t.reg_data;
}
