-- ===== src/Tracer/Header.antt =====
-- The parts of a record as `Instruction::read` of Execute/src/Thread.cpp reads what `writef` of
-- Tools/insList.cpp has written.
use mathlib.Core.List.{append_assoc}
use mmt_sync.Base.{
  ℕ, suc, ◌%◌, ◌^◌, ◌<◌, ◌≡◌, refl, subst, List, [], ◌∷◌, ◌++◌, Bool, true, false, ltb, arith,
  length, if◌then◌else◌,
}
use mmt_sync.Trace.{
  Header, Instruction, readf, read_numbers, read_header, read_pragmas, read_body, has_bit,
}
use mmt_sync.Tracer.Defs.{Tracer, number_bytes, pragma_bytes}
use mmt_sync.Tracer.Bytes.{
  file_of, readf-append, read_number-number_bytes, entries, length-entries, list_bytes,
  array_bytes-entries, AllFit, read_numbers-list_bytes,
}

-- The numbers of a header fit their fields.
pub record Fits (h : Header) : Type 0 where
  pub pc : h.pc < 256 ^ 8
  pub sp : h.sp < 256 ^ 8
  pub mqflags : h.mqflags < 256 ^ 1
  pub reg_size : h.reg_size < 256 ^ 1
  pub cf_flags : h.cf_flags < 256 ^ 1
  pub bb_priority : h.bb_priority < 256 ^ 4

abbrev pub header_bytes : Header → List ℕ → List ℕ
header_bytes h rest =
    number_bytes 8 h.pc
    ++ (number_bytes 8 h.sp
        ++ (number_bytes 1 h.mqflags
            ++ (number_bytes 1 h.reg_size
                ++ (number_bytes 1 h.cf_flags ++ (number_bytes 4 h.bb_priority ++ rest)))))

pub read_header-header_bytes :
    (h : Header) (rest : List ℕ)
    → Fits h
    → read_header (file_of (header_bytes h rest) false) ≡ (h, file_of rest false)
unfolding read_header
read_header-header_bytes h rest fits = rw (
  read_number-number_bytes 8 h.pc
      (number_bytes 8 h.sp
        ++ (number_bytes 1 h.mqflags
            ++ (number_bytes 1 h.reg_size
                ++ (number_bytes 1 h.cf_flags ++ (number_bytes 4 h.bb_priority ++ rest)))))
      false fits.pc,
  read_number-number_bytes 8 h.sp
      (number_bytes 1 h.mqflags
        ++ (number_bytes 1 h.reg_size
            ++ (number_bytes 1 h.cf_flags ++ (number_bytes 4 h.bb_priority ++ rest))))
      false fits.sp,
  read_number-number_bytes 1 h.mqflags
      (number_bytes 1 h.reg_size
        ++ (number_bytes 1 h.cf_flags ++ (number_bytes 4 h.bb_priority ++ rest)))
      false fits.mqflags,
  read_number-number_bytes 1 h.reg_size
      (number_bytes 1 h.cf_flags ++ (number_bytes 4 h.bb_priority ++ rest)) false fits.reg_size,
  read_number-number_bytes 1 h.cf_flags (number_bytes 4 h.bb_priority ++ rest) false fits.cf_flags,
  read_number-number_bytes 4 h.bb_priority rest false fits.bb_priority,
)

read_entries-list_bytes :
    (size : ℕ) (a : ℕ → ℕ) (count : ℕ) (rest : List ℕ)
    → AllFit size (entries a 0 count)
    → read_numbers size count (file_of (list_bytes size (entries a 0 count) ++ rest) false)
      ≡ (entries a 0 count, file_of rest false)
read_entries-list_bytes size a count rest fit =
    subst
      (λ k.
        read_numbers size k (file_of (list_bytes size (entries a 0 count) ++ rest) false)
        ≡ (entries a 0 count, file_of rest false))
      (length-entries a 0 count) (read_numbers-list_bytes size (entries a 0 count) rest false fit)

-- The fields of the pragmas as `read` leaves them.
abbrev pub read_back : Tracer → Bool → ℕ × ℕ × List ℕ
read_back s true = (s.dom_begin_list, s.dom_end_counter, entries s.dom_end_list 0 s.dom_end_counter)
read_back s false = (0, 0, [])

-- The pragmas of a tracer fit their fields.
pub record PragmasFit (s : Tracer) : Type 0 where
  pub begin : s.dom_begin_list < 256 ^ 4
  pub counter : s.dom_end_counter < 256 ^ 1
  pub ends : AllFit 4 (entries s.dom_end_list 0 s.dom_end_counter)

abbrev pub written_pragmas : Tracer → Bool → List ℕ
written_pragmas s b = if b then pragma_bytes s else []

read_pragmas-written :
    (s : Tracer) (b : Bool) (rest : List ℕ)
    → PragmasFit s
    → read_pragmas b (file_of (written_pragmas s b ++ rest) false)
      ≡ (read_back s b, file_of rest false)
unfolding read_pragmas pragma_bytes
read_pragmas-written s false rest fit = refl
read_pragmas-written s true rest fit =
    let ends = entries s.dom_end_list 0 s.dom_end_counter in
    rw (
      array_bytes-entries 4 s.dom_end_list 0 s.dom_end_counter,
      append_assoc (number_bytes 4 s.dom_begin_list)
          (number_bytes 1 s.dom_end_counter ++ list_bytes 4 ends) rest,
      append_assoc (number_bytes 1 s.dom_end_counter) (list_bytes 4 ends) rest,
      read_number-number_bytes 4 s.dom_begin_list
          (number_bytes 1 s.dom_end_counter ++ (list_bytes 4 ends ++ rest)) false fit.begin,
      read_number-number_bytes 1 s.dom_end_counter (list_bytes 4 ends ++ rest) false fit.counter,
      read_entries-list_bytes 4 s.dom_end_list s.dom_end_counter rest fit.ends,
    )

read_registers :
    (regs rest : List ℕ)
    → (if ltb 0 (length regs)
        then readf (length regs) (file_of (regs ++ rest) false)
        else ([], file_of (regs ++ rest) false))
      ≡ (regs, file_of rest false)
read_registers [] rest = refl
read_registers (r ∷ regs) rest =
    let some_left : ltb 0 (suc (length regs)) ≡ true = ground arith in
    rw some_left (readf-append (r ∷ regs) rest false)

-- What `read` makes of a header, the pragmas, the addresses and the registers that follow it.
abbrev pub assemble : Header → ℕ × ℕ × List ℕ → List ℕ → List ℕ → Instruction
assemble h pragmas addresses regs = record {
  pc = h.pc;
  sp = h.sp;
  bb_priority = h.bb_priority;
  pragma_end_list = pragmas.2;
  pragma_begin_list = pragmas.0;
  pragma_end_counter = pragmas.1;
  reg_size = h.reg_size;
  cf_flags = h.cf_flags;
  mem_quant = h.mqflags % 8;
  mem_address = addresses;
  reg_data = regs;
  barrier = has_bit 7 h.mqflags;
  basic_block = has_bit 6 h.mqflags;
  pragma_fun_call = has_bit 5 h.mqflags;
  pragma_fun_ret = has_bit 4 h.mqflags;
}

pub read_body-written :
    (s : Tracer) (h : Header) (b : Bool) (addresses regs rest : List ℕ)
    → PragmasFit s
    → has_bit 3 h.mqflags ≡ b
    → h.mqflags % 8 ≡ length addresses
    → h.reg_size ≡ length regs
    → AllFit 8 addresses
    → read_body h
        (file_of (written_pragmas s b ++ (list_bytes 8 addresses ++ (regs ++ rest))) false)
      ≡ (assemble h (read_back s b) addresses regs, file_of rest false)
unfolding read_body
read_body-written s h b addresses regs rest fit pragmas quant size all = rw (
  pragmas,
  read_pragmas-written s b (list_bytes 8 addresses ++ (regs ++ rest)) fit,
  quant,
  read_numbers-list_bytes 8 addresses (regs ++ rest) false all,
  size,
  read_registers regs rest,
)
