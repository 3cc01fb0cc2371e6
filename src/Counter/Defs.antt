-- ===== src/Counter/Defs.antt =====
-- Tools/insCounter.cpp: the functions that the Pin tool calls while the program runs, for one thread.
-- The arrays indexed by `tid` are the fields of a record.
use mmt_sync.Base.{ℕ, ◌+◌, ◌-◌, ◌%◌, ◌^◌, Bool, true, false, not, ◌&&◌, ltb, ◌==◌, if◌then◌else◌}
use mmt_sync.Trace.{is_function_call_flag, is_function_ret_flag}
use mmt_sync.Tracer.{
  is_delayed, code_fun_begin, code_fun_end, code_ignore_begin, code_ignore_end, min_dom_begin,
  max_dom_begin, min_dom_end, max_dom_end,
}

pub record Counter : Type 0 where
  pub out_file : Bool
  pub secao_critica : ℕ
  pub ins_critica : ℕ
  pub ins_sequencial : ℕ
  pub quantidade : ℕ
  pub ins_shared_lib : ℕ
  pub ins_calls : ℕ
  pub ins_rets : ℕ
  pub pthread_barrier_called : Bool
  pub pthread_exit_called : Bool
  pub pthread_cancel_called : Bool
  pub pthread_key_called : Bool
  pub recursive_work_thread : Bool
  pub setjmp_called : Bool
  pub exit_fun_called : Bool
  pub ignorar_print : Bool
  pub fun_call_begin : Bool
  pub fun_call_end : Bool
  pub dom_begin_list : ℕ
  pub dom_end_counter : ℕ
  pub fun_begin_counter : ℕ
  pub fun_end_counter : ℕ
  pub fun_begin_counter_aux : ℕ
  pub fun_end_counter_aux : ℕ
  pub stored_flags : ℕ

-- `x++` on UINT64.
abbrev pub inc64 : ℕ → ℕ
inc64 x = (x + 1) % 2 ^ 64

abbrev pub inc_if : Bool → ℕ → ℕ
inc_if b x = if b then inc64 x else x

-- `OutFile[tid] && secao_critica[tid] == 0`
abbrev pub is_counting : Counter → Bool
is_counting s = s.out_file && (s.secao_critica == 0)

-- Calls and returns, by the flags of the instruction.
unfoldable pub count_calls : ℕ → Counter → Counter
unfolding is_function_call_flag is_function_ret_flag
count_calls flags s = record s {
  ins_calls = inc_if (is_function_call_flag flags) s.ins_calls;
  ins_rets = inc_if (is_function_ret_flag flags) s.ins_rets;
}

-- Where it is not counted as one of the thread: in a critical section, or outside the work.
abbrev pub count_apart : Counter → Counter
count_apart s =
    if s.out_file
    then record s { ins_critica = inc64 s.ins_critica }
    else record s { ins_sequencial = inc64 s.ins_sequencial }

unfoldable pub proc_ins_count : Counter → ℕ → Counter
unfolding count_calls
proc_ins_count s flags =
    if is_counting s
    then count_calls flags (record s {
      fun_call_begin = false;
      fun_begin_counter = inc_if s.fun_call_begin s.fun_begin_counter;
      fun_call_end = false;
      fun_end_counter = inc_if s.fun_call_end s.fun_end_counter;
      dom_begin_list = 0;
      dom_end_counter = 0;
      quantidade = inc64 s.quantidade;
    })
    else count_apart s

-- "restore saved instruction"
unfoldable pub count_delayed : Counter → Counter
unfolding proc_ins_count
count_delayed s =
    if s.fun_call_begin
    then proc_ins_count (record s { fun_call_begin = false }) s.stored_flags
    else s

unfoldable pub docount : Counter → ℕ → Counter
unfolding count_delayed proc_ins_count
docount s flags =
    if s.ignorar_print
    then s
    else if is_counting s
    then if is_delayed flags
      then record (count_delayed s) { fun_call_begin = true; stored_flags = flags }
      else proc_ins_count (count_delayed s) flags
    else proc_ins_count s flags

unfoldable pub count_shared : Bool → Counter → ℕ → Counter
unfolding count_calls
count_shared include_shared s flags =
    if is_counting s
    then (let shared = record s { ins_shared_lib = inc64 s.ins_shared_lib } in
        if include_shared then count_calls flags shared else shared)
    else count_apart s

abbrev pub exec_pragma_count : Counter → Counter
exec_pragma_count s = record s { ignorar_print = not s.ignorar_print }

-- The pragmas outside a critical section.
unfoldable pub do_code_count : Counter → ℕ → Counter
unfolding proc_ins_count
do_code_count s arg =
    if arg == code_fun_begin
    then (let begun = record s { fun_begin_counter_aux = inc64 s.fun_begin_counter_aux } in
        if s.fun_call_begin then proc_ins_count begun s.stored_flags else begun)
    else if arg == code_fun_end
    then record s { fun_end_counter_aux = inc64 s.fun_end_counter_aux; fun_call_end = true }
    else if ltb min_dom_begin arg && ltb arg max_dom_begin
    then record s { dom_begin_list = arg - min_dom_begin }
    else if ltb min_dom_end arg && ltb arg max_dom_end
    then record s { dom_end_counter = (s.dom_end_counter + 1) % 256 }
    else s

-- `secao_critica` is a UINT8.
abbrev pub mutex_lock_count : Counter → Counter
mutex_lock_count s = record s { secao_critica = (s.secao_critica + 1) % 256 }

abbrev pub mutex_unlock_count : Counter → Counter
mutex_unlock_count s = record s { secao_critica = (s.secao_critica + 255) % 256 }

unfoldable pub dopragma_count : Counter → ℕ → Counter
unfolding do_code_count
dopragma_count s arg =
    if s.ignorar_print && s.out_file
    then if arg == code_ignore_begin
      then mutex_lock_count s
      else if arg == code_ignore_end
      then mutex_unlock_count s
      else if s.secao_critica == 0
      then do_code_count s arg
      else s
    else s
