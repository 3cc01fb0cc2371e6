-- ===== src/Counter/Events.antt =====
-- Tools/insCounter.cpp: the locks, the start and end of a thread, and what happens to it.
use mmt_sync.Base.{
  ℕ, ◌+◌, ◌-◌, ◌%◌, ◌^◌, List, [], ◌∷◌, Bool, true, false, not, ◌||◌, ltb, ◌==◌, if◌then◌else◌,
}
use mmt_sync.Base.Int.{ℤ, pos, negsuc}
use mmt_sync.Tracer.{Ins, ins_flags}
use mmt_sync.Counter.Defs.{
  Counter, docount, count_shared, exec_pragma_count, dopragma_count, mutex_lock_count,
  mutex_unlock_count,
}

abbrev pub mutex_trylock_count : Counter → ℕ → Counter
mutex_trylock_count s ret = if ret == 0 then mutex_lock_count s else s

abbrev pub barrier_after_count : Counter → Counter
barrier_after_count s = record (mutex_unlock_count s) { pthread_barrier_called = true }

abbrev pub fim_thread_count : Counter → Counter
fim_thread_count s = record s { out_file = false }

abbrev pub pthread_exit_before : Counter → Counter
pthread_exit_before s =
    if s.out_file then fim_thread_count (record s { pthread_exit_called = true }) else s

abbrev pub exit_before : Counter → Counter
exit_before s = if s.out_file then record s { exit_fun_called = true } else s

abbrev pub pthread_key_before : Counter → Counter
pthread_key_before s = record s { pthread_key_called = true }

abbrev pub pthread_cancel_before : Counter → Counter
pthread_cancel_before s = record s { pthread_cancel_called = true }

abbrev pub setjmp_before : Counter → Counter
setjmp_before s = record s { setjmp_called = true }

abbrev pub inicio_thread_count : Counter → Counter
inicio_thread_count s =
    if s.out_file
    then record s { recursive_work_thread = true }
    else record s { out_file = true; quantidade = 0; ins_shared_lib = 0 }

-- `threadid < MAX_TID`: the arrays have room for the thread.
unfoldable pub thread_start_count : Bool → Counter → Counter
thread_start_count verificar_fun s =
    let reset = record s {
      out_file = false;
      secao_critica = 0;
      ins_sequencial = 0;
      ins_critica = 0;
      ins_calls = 0;
      ins_rets = 0;
      pthread_barrier_called = false;
      pthread_exit_called = false;
      pthread_cancel_called = false;
      pthread_key_called = false;
      recursive_work_thread = false;
      setjmp_called = false;
      exit_fun_called = false;
      ignorar_print = false;
      fun_call_begin = false;
      fun_call_end = false;
      dom_begin_list = 0;
      dom_end_counter = 0;
      fun_begin_counter = 0;
      fun_end_counter = 0;
      fun_begin_counter_aux = 0;
      fun_end_counter_aux = 0;
    } in
    if verificar_fun then reset else inicio_thread_count reset

abbrev pub thread_fini_count : Bool → Counter → Counter
thread_fini_count verificar_fun s =
    if s.out_file || not verificar_fun then fim_thread_count s else s

-- The calls that the tool inserts, at an instruction and at a routine of the program.
pub data CountCall : Type 0 where
  calls_exec_pragma : CountCall
  calls_dopragma : CountCall
  calls_docount : ℕ → CountCall
  calls_count_shared : ℕ → CountCall
  calls_mutex_lock : CountCall
  calls_mutex_unlock : CountCall
  calls_mutex_trylock : CountCall
  calls_barrier_after : CountCall
  calls_pthread_exit_before : CountCall
  calls_exit_before : CountCall
  calls_pthread_key_before : CountCall
  calls_pthread_cancel_before : CountCall
  calls_setjmp_before : CountCall
  calls_inicio_thread : CountCall
  calls_fim_thread : CountCall

-- `Instruction`: the call of an instruction, and `contador_statico` (UINT32) after it.
unfoldable pub count_instruction : Ins → List CountCall
unfolding ins_flags
count_instruction i =
    if i.shared_lib
    then calls_count_shared (ins_flags i) ∷ []
    else if i.in_pragma_function
    then []
    else if i.calls_pragma_function
    then calls_exec_pragma ∷ []
    else if i.loads_pragma
    then calls_dopragma ∷ []
    else calls_docount (ins_flags i) ∷ []

unfoldable pub count_static : Bool → Ins → ℕ → ℕ
count_static include_shared i contador =
    if i.shared_lib
    then if include_shared then (contador + 1) % 2 ^ 32 else contador
    else if i.in_pragma_function
    then contador
    else if i.calls_pragma_function
    then (contador + 2 ^ 32 - 1) % 2 ^ 32
    else if i.loads_pragma
    then contador
    else (contador + 1) % 2 ^ 32

-- A call, with the value that Pin passes: the register of a pragma, or what a lock returns.
unfoldable pub run_count : Bool → ℕ → Counter → CountCall → Counter
unfolding docount count_shared dopragma_count
run_count include_shared v s calls_exec_pragma = exec_pragma_count s
run_count include_shared v s calls_dopragma = dopragma_count s v
run_count include_shared v s (calls_docount flags) = docount s flags
run_count include_shared v s (calls_count_shared flags) = count_shared include_shared s flags
run_count include_shared v s calls_mutex_lock = mutex_lock_count s
run_count include_shared v s calls_mutex_unlock = mutex_unlock_count s
run_count include_shared v s calls_mutex_trylock = mutex_trylock_count s v
run_count include_shared v s calls_barrier_after = barrier_after_count s
run_count include_shared v s calls_pthread_exit_before = pthread_exit_before s
run_count include_shared v s calls_exit_before = exit_before s
run_count include_shared v s calls_pthread_key_before = pthread_key_before s
run_count include_shared v s calls_pthread_cancel_before = pthread_cancel_before s
run_count include_shared v s calls_setjmp_before = setjmp_before s
run_count include_shared v s calls_inicio_thread = inicio_thread_count s
run_count include_shared v s calls_fim_thread = fim_thread_count s

unfoldable pub run_counts : Bool → ℕ → Counter → List CountCall → Counter
unfolding run_count
run_counts include_shared v s [] = s
run_counts include_shared v s (c ∷ cs) =
    run_counts include_shared v (run_count include_shared v s c) cs

-- `Fini`: the line of a thread, if it has one. `(long long)(a - b)` on UINT64.
abbrev pub signed_difference : ℕ → ℕ → ℤ
signed_difference a b =
    let d = (a + 2 ^ 64 - b) % 2 ^ 64 in if ltb d (2 ^ 63) then pos d else negsuc (2 ^ 64 - 1 - d)

abbrev pub is_reported : Counter → Bool
is_reported s =
    not (s.ins_critica == 0)
    || not (s.ins_sequencial == 0)
    || not (s.quantidade == 0)
    || not (s.ins_shared_lib == 0)

abbrev pub as_bit : Bool → ℤ
as_bit b = if b then pos 1 else pos 0

unfoldable pub report_line : Counter → List ℤ
report_line s =
    if is_reported s
    then pos s.quantidade
      ∷ pos s.ins_shared_lib
      ∷ pos s.ins_critica
      ∷ pos s.ins_sequencial
      ∷ signed_difference s.fun_begin_counter s.fun_end_counter
      ∷ signed_difference s.fun_begin_counter 0
      ∷ signed_difference s.fun_begin_counter_aux s.fun_end_counter_aux
      ∷ signed_difference s.fun_begin_counter_aux 0
      ∷ signed_difference s.ins_calls s.ins_rets
      ∷ signed_difference s.ins_calls 0
      ∷ as_bit s.pthread_barrier_called
      ∷ as_bit s.pthread_exit_called
      ∷ as_bit s.pthread_cancel_called
      ∷ as_bit s.pthread_key_called
      ∷ as_bit s.recursive_work_thread
      ∷ as_bit s.setjmp_called
      ∷ as_bit s.exit_fun_called
      ∷ []
    else []
