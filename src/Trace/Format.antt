-- ===== src/Trace/Format.antt =====
-- `struct Instruction` and `Instruction::read`, with `readf` and `teste_eof` (Execute/src/Thread.cpp),
-- built with COMPILER_SUPPORT as Execute/makefile does. Numbers are stored little endian; ADDRINT has
-- 8 bytes and UINT has 4. The arrays of an instruction are lists of the entries that were read.
use mmt_sync.Base.{
  ℕ, zero, suc, ◌+◌, ◌*◌, ◌%◌, List, [], ◌∷◌, Option, none, some, Bool, true, false, ltb,
  if◌then◌else◌,
}
use mmt_sync.Trace.Flags.{has_bit}

-- A stream that `fgetc` reads: the bytes left, and the end-of-file indicator of `feof`.
pub record File : Type 0 where
  pub bytes : List ℕ
  pub at_eof : Bool

-- `fopen`: nothing read, indicator clear.
abbrev pub open_file : List ℕ → File
open_file bytes = record { bytes = bytes; at_eof = false }

abbrev pub get_byte : List ℕ → Bool → ℕ × File
get_byte [] e = (255, record { bytes = []; at_eof = true })
get_byte (b ∷ bs) e = (b, record { bytes = bs; at_eof = e })

-- `(unsigned char) fgetc(arq)`: at the end the value is `(unsigned char) EOF`.
abbrev pub fgetc : File → ℕ × File
fgetc f = get_byte f.bytes f.at_eof

unfoldable pub readf : ℕ → File → List ℕ × File
readf zero f = ([], f)
readf (suc size) f = let (b, g) = fgetc f in let (bs, h) = readf size g in (b ∷ bs, h)

abbrev pub word_of : List ℕ → ℕ
word_of [] = 0
word_of (b ∷ bs) = b + 256 * word_of bs

-- `readf(file, &x, size)` into a number of `size` bytes.
unfoldable pub read_number : ℕ → File → ℕ × File
read_number size f = let (bs, g) = readf size f in (word_of bs, g)

-- `count` numbers of `size` bytes, as the loops over `pragma_end_list` and `mem_address`.
unfoldable pub read_numbers : ℕ → ℕ → File → List ℕ × File
read_numbers size zero f = ([], f)
read_numbers size (suc count) f =
    let (x, g) = read_number size f in let (xs, h) = read_numbers size count g in (x ∷ xs, h)

pub record Instruction : Type 0 where
  pub pc : ℕ
  pub sp : ℕ
  pub bb_priority : ℕ
  pub pragma_end_list : List ℕ
  pub pragma_begin_list : ℕ
  pub pragma_end_counter : ℕ
  pub reg_size : ℕ
  pub cf_flags : ℕ
  pub mem_quant : ℕ
  pub mem_address : List ℕ
  pub reg_data : List ℕ
  pub barrier : Bool
  pub basic_block : Bool
  pub pragma_fun_call : Bool
  pub pragma_fun_ret : Bool

-- What `read` has read before it tests for the end of the file.
pub record Header : Type 0 where
  pub pc : ℕ
  pub sp : ℕ
  pub mqflags : ℕ
  pub reg_size : ℕ
  pub cf_flags : ℕ
  pub bb_priority : ℕ

unfoldable pub read_header : File → Header × File
read_header f0 =
    let (pc, f1) = read_number 8 f0 in
    let (sp, f2) = read_number 8 f1 in
    let (mqflags, f3) = read_number 1 f2 in
    let (reg_size, f4) = read_number 1 f3 in
    let (cf_flags, f5) = read_number 1 f4 in
    let (bb_priority, f6) = read_number 4 f5 in
    (
      record {
        pc = pc;
        sp = sp;
        mqflags = mqflags;
        reg_size = reg_size;
        cf_flags = cf_flags;
        bb_priority = bb_priority;
      },
      f6,
    )

-- The post-dominator pragmas: begin list, and end list with its counter.
unfoldable pub read_pragmas : Bool → File → (ℕ × ℕ × List ℕ) × File
read_pragmas true f0 =
    let (begin_list, f1) = read_number 4 f0 in
    let (counter, f2) = read_number 1 f1 in
    let (ends, f3) = read_numbers 4 counter f2 in ((begin_list, counter, ends), f3)
read_pragmas false f0 = ((0, 0, []), f0)

-- The rest of the record. `if (reg_size > 0)` guards a read of `reg_size` bytes.
unfoldable pub read_body : Header → File → Instruction × File
read_body h f0 =
    let (pragmas, f1) = read_pragmas (has_bit 3 h.mqflags) f0 in
    let mem_quant = h.mqflags % 8 in
    let (addresses, f2) = read_numbers 8 mem_quant f1 in
    let (registers, f3) = if ltb 0 h.reg_size then readf h.reg_size f2 else ([], f2) in
    (
      record {
        pc = h.pc;
        sp = h.sp;
        bb_priority = h.bb_priority;
        pragma_end_list = pragmas.2;
        pragma_begin_list = pragmas.0;
        pragma_end_counter = pragmas.1;
        reg_size = h.reg_size;
        cf_flags = h.cf_flags;
        mem_quant = mem_quant;
        mem_address = addresses;
        reg_data = registers;
        barrier = has_bit 7 h.mqflags;
        basic_block = has_bit 6 h.mqflags;
        pragma_fun_call = has_bit 5 h.mqflags;
        pragma_fun_ret = has_bit 4 h.mqflags;
      },
      f3,
    )

-- `Instruction::read`: `none` stands for the result `false`, at the end of the file.
unfoldable pub read : File → Option Instruction × File
read f =
    let (h, g) = read_header f in
    let (insn, rest) = read_body h g in if g.at_eof then (none, g) else (some insn, rest)
