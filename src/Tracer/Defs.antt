-- ===== src/Tracer/Defs.antt =====
-- Tools/insList.cpp: the functions that the Pin tool calls while the program runs, for one thread.
-- The arrays indexed by `tid` are the fields of a record; the file is what `fputc` has written.
-- `writef` writes the bytes of a number, little endian.
use mmt_sync.Base.{
  ℕ, zero, suc, ◌+◌, ◌-◌, ◌*◌, ◌/◌, ◌%◌, ◌^◌, List, [], ◌∷◌, ◌++◌, Bool, true, false, not, ◌&&◌,
  ◌||◌, ltb, leb, ◌==◌, if◌then◌else◌, update,
}
use mmt_sync.Trace.{has_bit, is_end_hardware_block}

-- `stored_delayed_call`
pub record DelayedCall : Type 0 where
  pub pc : ℕ
  pub sp : ℕ
  pub flags : ℕ
  pub memops : ℕ
  pub regops : ℕ
  pub basic_block_priority : ℕ

pub record Tracer : Type 0 where
  pub opened : Bool
  pub written : List ℕ
  pub sp_base : ℕ
  pub secao_critica : ℕ
  pub hard_basic_block_begin : Bool
  pub barrier_flag : Bool
  pub basic_block_priority : ℕ
  pub ignorar_print : Bool
  pub delayed_branch : Bool
  pub fun_call_begin : Bool
  pub fun_call_end : Bool
  pub dom_begin_list : ℕ
  pub dom_end_counter : ℕ
  pub dom_end_list : ℕ → ℕ
  pub stored_delayed_call : DelayedCall
  pub stored_delayed_memory_quan : ℕ
  pub stored_delayed_memory : ℕ → ℕ
  pub stored_delayed_regis_quan : ℕ
  pub stored_delayed_regis : ℕ → ℕ

-- `writef` of a number of `size` bytes.
unfoldable pub number_bytes : ℕ → ℕ → List ℕ
number_bytes zero x = []
number_bytes (suc size) x = (x % 256) ∷ number_bytes size (x / 256)

-- `writef` of `count` numbers of an array, from the index `i` on.
unfoldable pub array_bytes : ℕ → (ℕ → ℕ) → ℕ → ℕ → List ℕ
unfolding number_bytes
array_bytes size a i zero = []
array_bytes size a i (suc count) = number_bytes size (a i) ++ array_bytes size a (suc i) count

abbrev pub write : List ℕ → Tracer → Tracer
write bytes s = record s { written = s.written ++ bytes }

-- `OutFile[tid] != NULL && secao_critica[tid] == 0`
abbrev pub is_writing : Tracer → Bool
is_writing s = s.opened && (s.secao_critica == 0)

-- `!ignorar_print[tid] && OutFile[tid] != NULL && secao_critica[tid] == 0`
abbrev pub is_printing : Tracer → Bool
is_printing s = not s.ignorar_print && is_writing s

-- `max - (sp_base[tid] - sp)` on ADDRINT, with `max` at -1024.
abbrev pub relative_sp : ℕ → ℕ → ℕ
relative_sp base sp = (2 ^ 64 - 1024 + 2 ^ 64 - (base + 2 ^ 64 - sp) % 2 ^ 64) % 2 ^ 64

-- `if (flag) mems += value;` on UINT8.
abbrev pub add_mark : Bool → ℕ → ℕ → ℕ
add_mark flag value mems = if flag then (mems + value) % 256 else mems

-- `dom_begin_list[tid] > 0 || dom_end_counter[tid] > 0`
abbrev pub has_pragmas : Tracer → Bool
has_pragmas s = ltb 0 s.dom_begin_list || ltb 0 s.dom_end_counter

-- The pragmas go with this instruction unless a branch before it was delayed.
abbrev pub writes_pragmas : Tracer → Bool
writes_pragmas s = has_pragmas s && not s.delayed_branch

-- `mems`: the number of memory operands and the marks.
unfoldable pub marked_mems : Tracer → ℕ → ℕ
marked_mems s memops = add_mark (writes_pragmas s) 8 (
    add_mark s.fun_call_end 16 (
      add_mark s.fun_call_begin 32
        (add_mark s.hard_basic_block_begin 64 (add_mark s.barrier_flag 128 (memops % 256)))))

unfoldable pub pragma_bytes : Tracer → List ℕ
pragma_bytes s =
    number_bytes 4 s.dom_begin_list
    ++ (number_bytes 1 s.dom_end_counter ++ array_bytes 4 s.dom_end_list 0 s.dom_end_counter)

-- What `proc_ins` writes.
unfoldable pub entry_bytes : Tracer → ℕ → ℕ → ℕ → ℕ → ℕ → List ℕ
entry_bytes s pc sp flags memops regops =
    number_bytes 8 pc
    ++ (number_bytes 8 (relative_sp s.sp_base sp)
        ++ (number_bytes 1 (marked_mems s memops)
            ++ (number_bytes 1 (regops % 256)
                ++ (number_bytes 1 (flags % 256)
                    ++ (number_bytes 4 s.basic_block_priority
                        ++ (if writes_pragmas s then pragma_bytes s else []))))))

unfoldable pub proc_ins : Tracer → ℕ → ℕ → ℕ → ℕ → ℕ → Tracer
unfolding entry_bytes is_end_hardware_block
proc_ins s pc sp flags memops regops =
    if is_writing s
    then record (write (entry_bytes s pc sp flags memops regops) s) {
      barrier_flag = false;
      hard_basic_block_begin = is_end_hardware_block (flags % 256);
      fun_call_begin = false;
      fun_call_end = false;
      delayed_branch = s.delayed_branch && not (has_pragmas s);
      basic_block_priority = 0;
      dom_begin_list = if writes_pragmas s then 0 else s.dom_begin_list;
      dom_end_counter = if writes_pragmas s then 0 else s.dom_end_counter;
    }
    else s

-- The delayed branch or call is processed, with its addresses and registers.
unfoldable pub print_delayed_ins : Tracer → Tracer
unfolding proc_ins array_bytes
print_delayed_ins s =
    let call = s.stored_delayed_call in
    let before = record s { basic_block_priority = call.basic_block_priority } in
    let after = proc_ins before call.pc call.sp call.flags call.memops call.regops in
    let bytes =
      array_bytes 8 s.stored_delayed_memory 0 s.stored_delayed_memory_quan
      ++ array_bytes 1 s.stored_delayed_regis 0 s.stored_delayed_regis_quan in
    record (write bytes after) {
      basic_block_priority = s.basic_block_priority;
      stored_delayed_memory_quan = 0;
      stored_delayed_regis_quan = 0;
    }

-- An instruction that ends in a branch or a call waits until it is known where it goes.
abbrev pub is_delayed : ℕ → Bool
is_delayed flags = has_bit 0 (flags % 256) || has_bit 2 (flags % 256)

-- The delayed instruction, if there is one, is processed before this one.
abbrev pub flush : Tracer → Tracer
flush s =
    if s.fun_call_begin
    then print_delayed_ins (record s { fun_call_begin = false; delayed_branch = true })
    else s

abbrev pub delay : Tracer → ℕ → ℕ → ℕ → ℕ → ℕ → Tracer
delay s pc sp flags memops regops = record s {
  fun_call_begin = true;
  stored_delayed_call = record {
    pc = pc;
    sp = sp;
    flags = flags;
    memops = memops;
    regops = regops;
    basic_block_priority = s.basic_block_priority;
  };
}

unfoldable pub doprint : Tracer → ℕ → ℕ → ℕ → ℕ → ℕ → Tracer
unfolding proc_ins print_delayed_ins
doprint s pc sp flags memops regops =
    if s.ignorar_print
    then s
    else if is_writing s
    then (if is_delayed flags
        then delay (flush s) pc sp flags memops regops
        else proc_ins (flush s) pc sp flags memops regops)
    else proc_ins s pc sp flags memops regops

unfoldable pub exec_pragma : Tracer → Tracer
exec_pragma s = if is_writing s then record s { ignorar_print = not s.ignorar_print } else s

-- An address on the stack of the thread is written relative to its base.
abbrev pub shown_address : ℕ → ℕ → ℕ → ℕ → ℕ
shown_address tid base sp addre =
    if leb addre base && leb sp addre
    then (tid * 8 * 1024 * 1024 % 2 ^ 32 + (base - addre)) % 2 ^ 64
    else addre

-- `stored_delayed_memory[quan] = addre; quan++;`; the four entries are not checked.
unfoldable pub print_memory : ℕ → Tracer → ℕ → ℕ → Tracer
unfolding number_bytes
print_memory tid s addre sp =
    let shown = shown_address tid s.sp_base sp addre in
    if is_printing s
    then (if s.fun_call_begin
        then record s {
          stored_delayed_memory = update s.stored_delayed_memory s.stored_delayed_memory_quan shown;
          stored_delayed_memory_quan = (s.stored_delayed_memory_quan + 1) % 256;
        }
        else write (number_bytes 8 shown) s)
    else s

-- The bytes of a register.
unfoldable pub print_register_data : Tracer → List ℕ → Tracer
print_register_data s [] = s
print_register_data s (byte ∷ bytes) =
    if s.fun_call_begin
    then print_register_data
        (record s {
          stored_delayed_regis = update s.stored_delayed_regis s.stored_delayed_regis_quan byte;
          stored_delayed_regis_quan = (s.stored_delayed_regis_quan + 1) % 256;
        })
        bytes
    else write (byte ∷ bytes) s

unfoldable pub print_register : Tracer → ℕ → Tracer
unfolding print_register_data number_bytes
print_register s reg = if is_printing s then print_register_data s (number_bytes 8 reg) else s

-- `size` bytes at an address of the traced program, which the tool reads.
unfoldable pub print_register_ref : Tracer → List ℕ → Tracer
unfolding print_register_data
print_register_ref s bytes = if is_printing s then print_register_data s bytes else s

unfoldable pub print_register_stack : Tracer → ℕ → Tracer
unfolding print_register_data number_bytes
print_register_stack s reg =
    if is_printing s then print_register_data s (number_bytes 8 (relative_sp s.sp_base reg)) else s
