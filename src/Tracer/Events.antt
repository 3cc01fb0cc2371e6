-- ===== src/Tracer/Events.antt =====
-- Tools/insList.cpp and PragmasCodes.hpp: the pragmas that the compiler pass leaves in the program,
-- the locks, and the start and end of a thread.
use mmt_sync.Base.{
  ℕ, ◌+◌, ◌-◌, ◌%◌, [], Bool, true, false, not, ◌&&◌, ltb, ◌==◌, if◌then◌else◌, update,
}
use mmt_sync.Tracer.Defs.{Tracer, print_delayed_ins}

abbrev pub code_fun_begin : ℕ
code_fun_begin = 1000001

abbrev pub code_fun_end : ℕ
code_fun_end = 1000002

abbrev pub code_ignore_begin : ℕ
code_ignore_begin = 1000003

abbrev pub code_ignore_end : ℕ
code_ignore_end = 1000004

abbrev pub min_dom_begin : ℕ
min_dom_begin = 2000000

abbrev pub max_dom_begin : ℕ
max_dom_begin = 3000000

abbrev pub min_dom_end : ℕ
min_dom_end = 3000000

abbrev pub max_dom_end : ℕ
max_dom_end = 4000000

abbrev pub basic_block_priority_min : ℕ
basic_block_priority_min = 4000000

abbrev pub basic_block_priority_max : ℕ
basic_block_priority_max = 5000000

-- The pragmas outside a critical section.
unfoldable pub do_code : Tracer → ℕ → Tracer
unfolding print_delayed_ins
do_code s arg =
    if ltb basic_block_priority_min arg && ltb arg basic_block_priority_max
    then record s { basic_block_priority = arg - basic_block_priority_min }
    else if arg == code_fun_begin
    then (if s.fun_call_begin then print_delayed_ins s else s)
    else if arg == code_fun_end
    then record s { fun_call_end = true }
    else if ltb min_dom_begin arg && ltb arg max_dom_begin
    then record s { dom_begin_list = arg - min_dom_begin }
    else if ltb min_dom_end arg && ltb arg max_dom_end
    then record s {
      dom_end_list = update s.dom_end_list s.dom_end_counter (arg - min_dom_end);
      dom_end_counter = (s.dom_end_counter + 1) % 256;
    }
    else s

-- `secao_critica` is a UINT8.
unfoldable pub mutex_lock : Tracer → Tracer
mutex_lock s = record s { secao_critica = (s.secao_critica + 1) % 256 }

unfoldable pub mutex_unlock : Tracer → Tracer
mutex_unlock s = record s { secao_critica = (s.secao_critica + 255) % 256 }

unfoldable pub mutex_trylock : Tracer → ℕ → Tracer
unfolding mutex_lock
mutex_trylock s ret = if ret == 0 then mutex_lock s else s

unfoldable pub barrier_after : Tracer → Tracer
unfolding mutex_unlock
barrier_after s = record (mutex_unlock s) { barrier_flag = true }

unfoldable pub dopragma : Tracer → ℕ → Tracer
unfolding do_code mutex_lock mutex_unlock
dopragma s arg =
    if s.ignorar_print && s.opened
    then (if arg == code_ignore_begin
        then mutex_lock s
        else if arg == code_ignore_end
        then mutex_unlock s
        else if s.secao_critica == 0
        then do_code s arg
        else s)
    else s

-- `fopen(nome, "w")`, which empties the file; that it succeeds is taken for granted.
unfoldable pub inicio_thread : Tracer → ℕ → Tracer
inicio_thread s sp = if s.opened then s else record s { opened = true; written = []; sp_base = sp }

unfoldable pub fim_thread : Tracer → Tracer
fim_thread s = if s.opened then record s { opened = false } else s

-- `threadid < MAX_TID`: the arrays have room for the thread.
unfoldable pub thread_start : Bool → Tracer → ℕ → Tracer
unfolding inicio_thread
thread_start verificar_fun s stack_ptr =
    let reset = record s {
      opened = false;
      secao_critica = 0;
      hard_basic_block_begin = false;
      barrier_flag = false;
      basic_block_priority = 0;
      ignorar_print = false;
      delayed_branch = false;
      fun_call_begin = false;
      fun_call_end = false;
      dom_begin_list = 0;
      dom_end_counter = 0;
      stored_delayed_memory_quan = 0;
      stored_delayed_regis_quan = 0;
    } in
    if verificar_fun then reset else inicio_thread reset stack_ptr

unfoldable pub thread_fini : Bool → Tracer → Tracer
unfolding fim_thread
thread_fini verificar_fun s =
    if s.opened then fim_thread s else if not verificar_fun then fim_thread s else s
