-- ===== src/Tracer/Entry.antt =====
-- `proc_ins` of Tools/insList.cpp against `Instruction::read` of Execute/src/Thread.cpp.
use mathlib.Core.List.{append_assoc}
use mmt_sync.Base.{ℕ, ◌%◌, ◌^◌, ◌<◌, ◌≡◌, refl, List, ◌++◌, false, arith, length, some}
use mmt_sync.Trace.{Header, Instruction, read}
use mmt_sync.Tracer.Defs.{Tracer, entry_bytes, marked_mems, writes_pragmas, relative_sp}
use mmt_sync.Tracer.Bytes.{file_of, list_bytes, AllFit}
use mmt_sync.Tracer.Marks.{IsMarked, marked_mems-IsMarked}
use mmt_sync.Tracer.Header.{
  Fits, header_bytes, read_header-header_bytes, read_back, PragmasFit, written_pragmas, assemble,
  read_body-written,
}

-- An instruction as the tool is told of it.
pub record Executed : Type 0 where
  pub pc : ℕ
  pub sp : ℕ
  pub flags : ℕ
  pub addresses : List ℕ
  pub regs : List ℕ

-- It fits the record: up to 7 addresses and 255 bytes of registers.
pub record ExecutedFits (s : Tracer) (i : Executed) : Type 0 where
  pub pc : i.pc < 256 ^ 8
  pub flags : i.flags < 256
  pub quant : length i.addresses < 8
  pub size : length i.regs < 256
  pub addresses : AllFit 8 i.addresses
  pub priority : s.basic_block_priority < 256 ^ 4
  pub pragmas : PragmasFit s

-- The record that `proc_ins` writes and the addresses and registers behind it.
abbrev pub executed_bytes : Tracer → Executed → List ℕ → List ℕ
executed_bytes s i rest =
    entry_bytes s i.pc i.sp i.flags (length i.addresses) (length i.regs)
    ++ (list_bytes 8 i.addresses ++ (i.regs ++ rest))

-- The instruction that the simulator is to see.
abbrev pub recorded : Tracer → Executed → Instruction
recorded s i = record {
  pc = i.pc;
  sp = relative_sp s.sp_base i.sp;
  bb_priority = s.basic_block_priority;
  pragma_end_list = (read_back s (writes_pragmas s)).2;
  pragma_begin_list = (read_back s (writes_pragmas s)).0;
  pragma_end_counter = (read_back s (writes_pragmas s)).1;
  reg_size = length i.regs;
  cf_flags = i.flags;
  mem_quant = length i.addresses;
  mem_address = i.addresses;
  reg_data = i.regs;
  barrier = s.barrier_flag;
  basic_block = s.hard_basic_block_begin;
  pragma_fun_call = s.fun_call_begin;
  pragma_fun_ret = s.fun_call_end;
}

module _ (s : Tracer) (i : Executed) (fits : ExecutedFits s i) where
  header : Header
  header = record {
    pc = i.pc;
    sp = relative_sp s.sp_base i.sp;
    mqflags = marked_mems s (length i.addresses);
    reg_size = length i.regs;
    cf_flags = i.flags;
    bb_priority = s.basic_block_priority;
  }

  byte_marks :
      IsMarked s.barrier_flag s.hard_basic_block_begin s.fun_call_begin s.fun_call_end
        (writes_pragmas s)
        (length i.addresses)
        (marked_mems s (length i.addresses))
  byte_marks = marked_mems-IsMarked s (length i.addresses) fits.quant

  header-Fits : Fits header
  unfolding header
  header-Fits = record {
    pc = fits.pc;
    sp = omega arith;
    mqflags = omega (arith, byte_marks.byte);
    reg_size = omega (arith, fits.size);
    cf_flags = omega (arith, fits.flags);
    bb_priority = fits.priority;
  }

  executed-header_bytes :
      (rest : List ℕ)
      → executed_bytes s i rest
        ≡ header_bytes header
            (written_pragmas s (writes_pragmas s) ++ (list_bytes 8 i.addresses ++ (i.regs ++ rest)))
  unfolding entry_bytes header
  executed-header_bytes rest =
      let size : length i.regs % 256 ≡ length i.regs = omega (arith, fits.size) in
      let flags : i.flags % 256 ≡ i.flags = omega (arith, fits.flags) in
      rw (size, flags) (simp append_assoc)

  assembled : assemble header (read_back s (writes_pragmas s)) i.addresses i.regs ≡ recorded s i
  unfolding header
  assembled =
      rw (byte_marks.quant, byte_marks.barrier, byte_marks.block, byte_marks.call, byte_marks.ret)

  -- For an instruction that fits the record format: `read` on the bytes that `proc_ins` writes for
  -- it, followed by its addresses and registers, returns the instruction with the marks and pragmas
  -- that the tool had for it, and leaves what follows.
  pub read-executed_bytes :
      (rest : List ℕ)
      → read (file_of (executed_bytes s i rest) false) ≡ (some (recorded s i), file_of rest false)
  unfolding read header
  read-executed_bytes rest =
      let tail = list_bytes 8 i.addresses ++ (i.regs ++ rest) in
      rw (
        executed-header_bytes rest,
        read_header-header_bytes header (written_pragmas s (writes_pragmas s) ++ tail) header-Fits,
        read_body-written s header (writes_pragmas s) i.addresses i.regs rest fits.pragmas
            byte_marks.pragmas byte_marks.quant refl fits.addresses,
        assembled,
      )
