-- ===== src/Tracer/Run.antt =====
-- Tools/insList.cpp: a thread of the traced program, event by event, and the trace file it leaves.
use mmt_sync.Base.{
  ℕ, ◌≡◌, ◌==◌, refl, ap, ◌∙◌, List, [], ◌∷◌, ◌++◌, Bool, true, false, not, arith, if_elim,
}
use mmt_sync.Trace.{Instruction}
use mmt_sync.Tracer.Defs.{Tracer}
use mmt_sync.Tracer.Events.{
  mutex_lock, mutex_unlock, mutex_trylock, barrier_after, inicio_thread, fim_thread, thread_start,
  thread_fini,
}
use mmt_sync.Tracer.Instrument.{Ins, Knobs, Values, instruction, run_calls}
use mmt_sync.Tracer.Whole.{trace_of, trace_of-nil, nil-IsWhole}
use mmt_sync.Tracer.Sound.{Sound, Step, Step-refl, Step-then}
use mmt_sync.Tracer.Pragmas.{modes-Step}
use mmt_sync.Tracer.Inserted.{InsFits, instruction_adds, instruction-Step}

-- What happens to a thread while it runs.
pub data Event : Type 0 where
  executes : Ins → Values → Event
  locks : Event
  unlocks : Event
  tries_lock : ℕ → Event
  leaves_barrier : Event
  exits : Event
  finishes : Event

unfoldable pub handle : Knobs → ℕ → Bool → Tracer → Event → Tracer
unfolding run_calls instruction mutex_lock mutex_unlock mutex_trylock barrier_after fim_thread
    thread_fini
handle knobs tid verificar_fun s (executes i v) = run_calls knobs tid v s (instruction knobs i)
handle knobs tid verificar_fun s locks = mutex_lock s
handle knobs tid verificar_fun s unlocks = mutex_unlock s
handle knobs tid verificar_fun s (tries_lock ret) = mutex_trylock s ret
handle knobs tid verificar_fun s leaves_barrier = barrier_after s
handle knobs tid verificar_fun s exits = fim_thread s
handle knobs tid verificar_fun s finishes = thread_fini verificar_fun s

abbrev pub event_adds : Knobs → ℕ → Tracer → Event → List Instruction
event_adds knobs tid s (executes i v) = instruction_adds knobs tid s i v
event_adds knobs tid s _ = []

unfoldable pub EventFits : Knobs → Event → Type 0
EventFits knobs (executes i v) = InsFits knobs i v
EventFits knobs _ = Unit {0}

unfoldable pub handle_all : Knobs → ℕ → Bool → Tracer → List Event → Tracer
unfolding handle
handle_all knobs tid verificar_fun s [] = s
handle_all knobs tid verificar_fun s (e ∷ es) =
    handle_all knobs tid verificar_fun (handle knobs tid verificar_fun s e) es

unfoldable pub all_add : Knobs → ℕ → Bool → Tracer → List Event → List Instruction
unfolding handle
all_add knobs tid verificar_fun s [] = []
all_add knobs tid verificar_fun s (e ∷ es) =
    event_adds knobs tid s e
    ++ all_add knobs tid verificar_fun (handle knobs tid verificar_fun s e) es

unfoldable pub AllFits : Knobs → List Event → Type 0
unfolding EventFits
AllFits knobs [] = Unit {0}
AllFits knobs (e ∷ es) = EventFits knobs e × AllFits knobs es

-- The thread starts, and with `verificar_fun` enters its function.
unfoldable pub opens : Bool → Tracer → ℕ → ℕ → Tracer
unfolding thread_start inicio_thread
opens verificar_fun s stack_ptr sp = inicio_thread (thread_start verificar_fun s stack_ptr) sp

-- The state after the file was opened, with nothing delayed.
fresh : Tracer → ℕ → Tracer
fresh s sp = record s {
  opened = true;
  written = [];
  sp_base = sp;
  secao_critica = 0;
  hard_basic_block_begin = false;
  barrier_flag = false;
  basic_block_priority = 0;
  ignorar_print = false;
  delayed_branch = false;
  fun_call_begin = false;
  fun_call_end = false;
  dom_begin_list = 0;
  dom_end_counter = 0;
  stored_delayed_memory_quan = 0;
  stored_delayed_regis_quan = 0;
}

fresh-Sound : (s : Tracer) (sp : ℕ) → Sound (fresh s sp)
unfolding fresh
fresh-Sound s sp = record {
  kept = record {
    whole = nil-IsWhole;
    pragmas = record { begin = omega arith; counter = omega arith; ends = tt };
    priority = omega arith;
  };
  delayed = λ e. absurd (ground arith);
  no_memory = λ e. refl;
  no_regis = λ e. refl;
}

opens-Sound : (b : Bool) (s : Tracer) (stack_ptr sp : ℕ) → Sound (opens b s stack_ptr sp)
unfolding opens thread_start inicio_thread fresh
opens-Sound true s stack_ptr sp = fresh-Sound s sp
opens-Sound false s stack_ptr sp = fresh-Sound s stack_ptr

opens-written : (b : Bool) (s : Tracer) (stack_ptr sp : ℕ) → (opens b s stack_ptr sp).written ≡ []
unfolding opens thread_start inicio_thread
opens-written true s stack_ptr sp = refl
opens-written false s stack_ptr sp = refl

module _ (knobs : Knobs) (tid : ℕ) (verificar_fun : Bool) where
  closes : (s : Tracer) → Sound s → Step s (fim_thread s) []
  unfolding fim_thread
  closes s sound =
      if_elim (λ t. Step s t []) s.opened _ s
        (λ e.
          modes-Step s sound false s.ignorar_print s.fun_call_end s.barrier_flag s.secao_critica)
        (λ e. Step-refl s sound)

  handle-Step :
      (s : Tracer) (e : Event)
      → EventFits knobs e
      → Sound s
      → Step s (handle knobs tid verificar_fun s e) (event_adds knobs tid s e)
  unfolding handle EventFits mutex_lock mutex_unlock mutex_trylock barrier_after fim_thread
      thread_fini
  handle-Step s (executes i v) fits sound = instruction-Step knobs tid s i v fits sound
  handle-Step s locks fits sound =
      modes-Step s sound s.opened s.ignorar_print s.fun_call_end s.barrier_flag _
  handle-Step s unlocks fits sound =
      modes-Step s sound s.opened s.ignorar_print s.fun_call_end s.barrier_flag _
  handle-Step s (tries_lock ret) fits sound =
      if_elim (λ t. Step s t []) (ret == 0) _ s
        (λ e. modes-Step s sound s.opened s.ignorar_print s.fun_call_end s.barrier_flag _)
        (λ e. Step-refl s sound)
  handle-Step s leaves_barrier fits sound =
      modes-Step s sound s.opened s.ignorar_print s.fun_call_end true _
  handle-Step s exits fits sound = closes s sound
  handle-Step s finishes fits sound =
      if_elim (λ t. Step s t []) s.opened _ _ (λ e. closes s sound)
        (λ e.
          if_elim (λ t. Step s t []) (not verificar_fun) _ s (λ f. closes s sound)
            (λ f. Step-refl s sound))

  handle_all-Step :
      (s : Tracer) (es : List Event)
      → AllFits knobs es
      → Sound s
      → Step s (handle_all knobs tid verificar_fun s es) (all_add knobs tid verificar_fun s es)
  unfolding handle_all all_add AllFits
  handle_all-Step s [] fits sound = Step-refl s sound
  handle_all-Step s (e ∷ es) (fit, fits) sound =
      let first = handle-Step s e fit sound in
      Step-then first (handle_all-Step (handle knobs tid verificar_fun s e) es fits first.sound)

  -- From the start of a thread (and its function, if one is named), for events whose instructions
  -- have at most 4 accesses, fewer than 256 bytes of registers and a pc and addresses of 64 bits: the
  -- simulator reads the file as exactly the instructions that `all_add` lists. By the tool's own flags these are the ones
  -- executed while the tool prints, each with the marks and pragmas of its moment; a branch or call
  -- is added at the next instruction, or as a call at the pragma of a function's begin, and one that
  -- is still delayed at the end is not.
  pub handle_all-trace :
      (s : Tracer) (stack_ptr sp : ℕ) (es : List Event)
      → AllFits knobs es
      → trace_of
          (handle_all knobs tid verificar_fun (opens verificar_fun s stack_ptr sp) es).written
        ≡ all_add knobs tid verificar_fun (opens verificar_fun s stack_ptr sp) es
  handle_all-trace s stack_ptr sp es fits =
      let t = opens verificar_fun s stack_ptr sp in
      (handle_all-Step t es fits (opens-Sound verificar_fun s stack_ptr sp)).trace
      ∙ ap (λ l. trace_of l ++ all_add knobs tid verificar_fun t es)
          (opens-written verificar_fun s stack_ptr sp)
      ∙ ap (λ l. l ++ all_add knobs tid verificar_fun t es) trace_of-nil
