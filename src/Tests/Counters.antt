-- ===== src/Tests/Counters.antt =====
-- insCounter: a call that waits while the thread takes a lock, and then the function's begin.
use mmt_sync.Base.{ℕ, ◌+◌, ◌≡◌, refl, List, [], ◌∷◌, true, false}
use mmt_sync.Tracer.{code_fun_begin}
use mmt_sync.Counter.{
  Counter, CountCall, calls_docount, calls_count_shared, calls_mutex_lock, calls_mutex_unlock,
  calls_exec_pragma, calls_dopragma, calls_inicio_thread,
}
use mmt_sync.Counter.Conserved.{Same64, counted, run_thread, all_adds, all_forgets, run_thread-Same}

abbrev idle_counter : Counter
idle_counter = record {
  out_file = false;
  secao_critica = 0;
  ins_critica = 0;
  ins_sequencial = 0;
  quantidade = 0;
  ins_shared_lib = 0;
  ins_calls = 0;
  ins_rets = 0;
  pthread_barrier_called = false;
  pthread_exit_called = false;
  pthread_cancel_called = false;
  pthread_key_called = false;
  recursive_work_thread = false;
  setjmp_called = false;
  exit_fun_called = false;
  ignorar_print = false;
  fun_call_begin = false;
  fun_call_end = false;
  dom_begin_list = 0;
  dom_end_counter = 0;
  fun_begin_counter = 0;
  fun_end_counter = 0;
  fun_begin_counter_aux = 0;
  fun_end_counter_aux = 0;
  stored_flags = 0;
}

abbrev work : List (ℕ × CountCall)
work =
    (0, calls_docount 0)
    ∷ (0, calls_inicio_thread)
    ∷ (0, calls_docount 4)
    ∷ (0, calls_mutex_lock)
    ∷ (0, calls_docount 0)
    ∷ (0, calls_mutex_unlock)
    ∷ (0, calls_exec_pragma)
    ∷ (code_fun_begin, calls_dopragma)
    ∷ (0, calls_docount 0)
    ∷ (0, calls_exec_pragma)
    ∷ (0, calls_count_shared 0)
    ∷ []

run_thread-Same_example :
    Same64
      (counted (run_thread true idle_counter work) + all_forgets true idle_counter work)
      (counted idle_counter + all_adds true idle_counter work)
run_thread-Same_example = run_thread-Same true idle_counter work

-- Four instructions outside the pragmas: one before the work, the call, one under the lock, and one
-- of a library; a fifth is in the pragma.
work-adds : all_adds true idle_counter work ≡ 4
unfolding all_adds
work-adds = refl
