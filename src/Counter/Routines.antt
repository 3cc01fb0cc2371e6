-- ===== src/Counter/Routines.antt =====
-- `Image` of Tools/insCounter.cpp and of Tools/insList.cpp: the calls that are inserted before and
-- after the routines of an image of the traced program.
use mmt_sync.Base.{List, [], ◌∷◌, ◌++◌, Bool, ◌&&◌, if◌then◌else◌}
use mmt_sync.Counter.Events.{
  CountCall, calls_mutex_lock, calls_mutex_unlock, calls_mutex_trylock, calls_barrier_after,
  calls_pthread_exit_before, calls_exit_before, calls_pthread_key_before,
  calls_pthread_cancel_before, calls_setjmp_before, calls_inicio_thread, calls_fim_thread,
}

-- The routines that are looked for by name; `work_thread` has the name of the command line.
pub data Routine : Type 0 where
  pthread_mutex_lock : Routine
  pthread_spin_lock : Routine
  pthread_rwlock_wrlock : Routine
  pthread_rwlock_rdlock : Routine
  pthread_mutex_unlock : Routine
  pthread_spin_unlock : Routine
  pthread_rwlock_unlock : Routine
  pthread_mutex_trylock : Routine
  pthread_spin_trylock : Routine
  pthread_rwlock_trywrlock : Routine
  pthread_rwlock_tryrdlock : Routine
  pthread_cond_wait : Routine
  pthread_barrier_wait : Routine
  pthread_exit : Routine
  pthread_key_create : Routine
  pthread_cancel : Routine
  pthread_kill : Routine
  exit_routine : Routine
  setjmp_routine : Routine
  work_thread : Routine

-- The calls before and after a routine.
pub record Hooks : Type 0 where
  pub before : List CountCall
  pub after : List CountCall

abbrev pub hook_before : CountCall → Hooks
hook_before c = record { before = c ∷ []; after = [] }

abbrev pub hook_after : CountCall → Hooks
hook_after c = record { before = []; after = c ∷ [] }

-- Both tools, for the routines of the pthread library that lock.
unfoldable pub lock_hooks : Routine → Hooks
lock_hooks pthread_mutex_lock = hook_after calls_mutex_lock
lock_hooks pthread_spin_lock = hook_after calls_mutex_lock
lock_hooks pthread_rwlock_wrlock = hook_after calls_mutex_lock
lock_hooks pthread_rwlock_rdlock = hook_after calls_mutex_lock
lock_hooks pthread_mutex_unlock = hook_before calls_mutex_unlock
lock_hooks pthread_spin_unlock = hook_before calls_mutex_unlock
lock_hooks pthread_rwlock_unlock = hook_before calls_mutex_unlock
lock_hooks pthread_mutex_trylock = hook_after calls_mutex_trylock
lock_hooks pthread_spin_trylock = hook_after calls_mutex_trylock
lock_hooks pthread_rwlock_trywrlock = hook_after calls_mutex_trylock
lock_hooks pthread_rwlock_tryrdlock = hook_after calls_mutex_trylock
lock_hooks pthread_cond_wait = record {
  before = calls_mutex_lock ∷ [];
  after = calls_mutex_unlock ∷ [];
}
lock_hooks pthread_barrier_wait = record {
  before = calls_mutex_lock ∷ [];
  after = calls_barrier_after ∷ [];
}
lock_hooks _ = record { before = []; after = [] }

-- What insCounter inserts besides, where the image is the pthread library, and in any image.
unfoldable pub library_hooks : Routine → Hooks
library_hooks pthread_exit = hook_before calls_pthread_exit_before
library_hooks pthread_key_create = hook_before calls_pthread_key_before
library_hooks pthread_cancel = hook_before calls_pthread_cancel_before
library_hooks pthread_kill = hook_before calls_pthread_cancel_before
library_hooks _ = record { before = []; after = [] }

unfoldable pub program_hooks : Routine → Hooks
program_hooks exit_routine = hook_before calls_exit_before
program_hooks setjmp_routine = hook_before calls_setjmp_before
program_hooks _ = record { before = []; after = [] }

unfoldable pub work_hooks : Routine → Hooks
work_hooks work_thread = record { before = calls_inicio_thread ∷ []; after = calls_fim_thread ∷ [] }
work_hooks _ = record { before = []; after = [] }

abbrev pub join_hooks : Hooks → Hooks → Hooks
join_hooks a b = record { before = a.before ++ b.before; after = a.after ++ b.after }

abbrev pub hooks_if : Bool → Hooks → Hooks
hooks_if b h = if b then h else record { before = []; after = [] }

-- `Image` of insCounter: the image has `pthread_create`, or is the main executable.
unfoldable pub image_hooks : Bool → Bool → Bool → Routine → Hooks
unfolding lock_hooks library_hooks program_hooks work_hooks
image_hooks has_pthread is_main verificar_fun r =
    join_hooks (hooks_if has_pthread (join_hooks (lock_hooks r) (library_hooks r)))
      (join_hooks (program_hooks r) (hooks_if (is_main && verificar_fun) (work_hooks r)))
