-- ===== src/Counter/Conserved.antt =====
-- Tools/insCounter.cpp: no instruction is counted twice or left out.
use mmt_sync.Base.{
  ℕ, ◌+◌, ◌%◌, ◌^◌, ◌≡◌, refl, List, [], ◌∷◌, Bool, true, false, ◌&&◌, ltb, ◌==◌, if◌then◌else◌,
  if_elim, if_false, Bool-cases, inl, inr, arith,
}
use mmt_sync.Tracer.{
  is_delayed, code_fun_begin, code_fun_end, code_ignore_begin, code_ignore_end, min_dom_begin,
  max_dom_begin, min_dom_end, max_dom_end,
}
use mmt_sync.Counter.Defs.{
  Counter, inc64, is_counting, count_apart, count_calls, proc_ins_count, count_delayed, docount,
  count_shared, dopragma_count, do_code_count,
}
use mmt_sync.Counter.Events.{
  CountCall, calls_exec_pragma, calls_dopragma, calls_docount, calls_count_shared, calls_mutex_lock,
  calls_mutex_unlock, calls_mutex_trylock, calls_barrier_after, calls_pthread_exit_before,
  calls_exit_before, calls_pthread_key_before, calls_pthread_cancel_before, calls_setjmp_before,
  calls_inicio_thread, calls_fim_thread, run_count,
}

-- The branch or call that waits.
abbrev pub pending : Counter → ℕ
pending s = if s.fun_call_begin then 1 else 0

-- All that is counted, and what waits.
abbrev pub counted : Counter → ℕ
counted s = s.quantidade + s.ins_shared_lib + s.ins_critica + s.ins_sequencial + pending s

-- Equal as UINT64.
abbrev pub Same64 : ℕ → ℕ → Type 0
Same64 a b = a % 2 ^ 64 ≡ b % 2 ^ 64

proc_ins_count-counting :
    (s : Counter) (flags : ℕ)
    → is_counting s ≡ true
    → Same64 (counted (proc_ins_count s flags) + pending s) (counted s + 1)
unfolding proc_ins_count count_calls
proc_ins_count-counting s flags e =
    if_elim (λ u. Same64 (counted u + pending s) (counted s + 1)) (is_counting s) _ (count_apart s)
      (λ on. omega arith) (λ off. cc)

proc_ins_count-apart :
    (s : Counter) (flags : ℕ)
    → is_counting s ≡ false
    → Same64 (counted (proc_ins_count s flags)) (counted s + 1)
unfolding proc_ins_count count_calls
proc_ins_count-apart s flags e =
    if_elim (λ u. Same64 (counted u) (counted s + 1)) (is_counting s) _ (count_apart s) (λ on. cc)
      (λ off.
        if_elim (λ u. Same64 (counted u) (counted s + 1)) s.out_file _ _ (λ _. omega arith)
          (λ _. omega arith))

count_delayed-Same :
    (s : Counter) → is_counting s ≡ true → Same64 (counted (count_delayed s)) (counted s)
unfolding count_delayed
count_delayed-Same s e =
    if_elim (λ u. Same64 (counted u) (counted s)) s.fun_call_begin _ s
      (λ waits.
        let now : pending s ≡ 1 = ground arith in
        omega
          (arith, proc_ins_count-counting (record s { fun_call_begin = false }) s.stored_flags e))
      (λ none. refl)

count_delayed-counting :
    (s : Counter)
    → is_counting s ≡ true
    → (is_counting (count_delayed s) ≡ true) × (pending (count_delayed s) ≡ 0)
unfolding count_delayed proc_ins_count count_calls
count_delayed-counting s e = ground arith

docount-Same :
    (s : Counter) (flags : ℕ)
    → s.ignorar_print ≡ false
    → Same64 (counted (docount s flags)) (counted s + 1)
unfolding docount
docount-Same s flags prints =
    let P : Counter → Type 0 = λ u. Same64 (counted u) (counted s + 1) in
    if_elim P s.ignorar_print s _ (λ on. cc)
      (λ off.
        if_elim P (is_counting s) _ (proc_ins_count s flags)
          (λ on.
            let (still, none) = count_delayed-counting s on in
            let before = count_delayed-Same s on in
            if_elim P (is_delayed flags) _ _ (λ waits. omega arith)
              (λ goes.
                let after = proc_ins_count-counting (count_delayed s) flags still in omega arith))
          (λ apart. proc_ins_count-apart s flags apart))

count_shared-Same :
    (include_shared : Bool) (s : Counter) (flags : ℕ)
    → Same64 (counted (count_shared include_shared s flags)) (counted s + 1)
unfolding count_shared count_calls
count_shared-Same include_shared s flags =
    let P : Counter → Type 0 = λ u. Same64 (counted u) (counted s + 1) in
    if_elim P (is_counting s) _ (count_apart s)
      (λ on. if_elim P include_shared _ _ (λ _. omega arith) (λ _. omega arith))
      (λ off. if_elim P s.out_file _ _ (λ _. omega arith) (λ _. omega arith))

do_code_count-Same :
    (s : Counter) (arg : ℕ)
    → is_counting s ≡ true
    → Same64 (counted (do_code_count s arg)) (counted s)
unfolding do_code_count
do_code_count-Same s arg e =
    let P : Counter → Type 0 = λ u. Same64 (counted u) (counted s) in
    if_elim P (arg == code_fun_begin) _ _
      (λ begins.
        let begun : Counter = record s { fun_begin_counter_aux = inc64 s.fun_begin_counter_aux } in
        if_elim P s.fun_call_begin (proc_ins_count begun s.stored_flags) begun
          (λ waits.
            let one : pending s ≡ 1 = ground arith in
            let after = proc_ins_count-counting begun s.stored_flags e in omega arith)
          (λ none. refl))
      (λ _.
        if_elim P (arg == code_fun_end) _ _ (λ _. refl)
          (λ _.
            if_elim P (ltb min_dom_begin arg && ltb arg max_dom_begin) _ _ (λ _. refl)
              (λ _.
                if_elim P (ltb min_dom_end arg && ltb arg max_dom_end) _ s (λ _. refl)
                  (λ _. refl))))

dopragma_count-Same : (s : Counter) (arg : ℕ) → Same64 (counted (dopragma_count s arg)) (counted s)
unfolding dopragma_count
dopragma_count-Same s arg =
    let P : Counter → Type 0 = λ u. Same64 (counted u) (counted s) in
    if_elim P (s.ignorar_print && s.out_file) _ s
      (λ on.
        if_elim P (arg == code_ignore_begin) _ _ (λ _. refl)
          (λ _.
            if_elim P (arg == code_ignore_end) _ _ (λ _. refl)
              (λ _.
                if_elim P (s.secao_critica == 0) _ s
                  (λ outside. do_code_count-Same s arg (ground arith)) (λ _. refl))))
      (λ off. refl)

-- What a call counts, and what the start of the work forgets.
unfoldable pub adds_count : Counter → CountCall → ℕ
adds_count s (calls_docount flags) = if s.ignorar_print then 0 else 1
adds_count s (calls_count_shared flags) = 1
adds_count s _ = 0

unfoldable pub forgets_count : Counter → CountCall → ℕ
forgets_count s calls_inicio_thread = if s.out_file then 0 else s.quantidade + s.ins_shared_lib
forgets_count s _ = 0

run_count-Same :
    (include_shared : Bool) (v : ℕ) (s : Counter) (c : CountCall)
    → Same64
        (counted (run_count include_shared v s c) + forgets_count s c)
        (counted s + adds_count s c)
unfolding run_count adds_count forgets_count docount
run_count-Same include_shared v s calls_exec_pragma = refl
run_count-Same include_shared v s calls_dopragma = omega (arith, dopragma_count-Same s v)
run_count-Same include_shared v s (calls_docount flags) = elim (Bool-cases s.ignorar_print) [
  | inl on ↦ ground arith
  | inr off ↦
      let after = docount-Same s flags off in
      let one : adds_count s (calls_docount flags) ≡ 1 = if_false s.ignorar_print 0 1 off in
      omega arith
]
run_count-Same include_shared v s (calls_count_shared flags) =
    omega (arith, count_shared-Same include_shared s flags)
run_count-Same include_shared v s calls_mutex_lock = refl
run_count-Same include_shared v s calls_mutex_unlock = refl
run_count-Same include_shared v s calls_mutex_trylock = ground arith
run_count-Same include_shared v s calls_barrier_after = refl
run_count-Same include_shared v s calls_pthread_exit_before = ground arith
run_count-Same include_shared v s calls_exit_before = ground arith
run_count-Same include_shared v s calls_pthread_key_before = refl
run_count-Same include_shared v s calls_pthread_cancel_before = refl
run_count-Same include_shared v s calls_setjmp_before = refl
run_count-Same include_shared v s calls_inicio_thread = ground arith
run_count-Same include_shared v s calls_fim_thread = refl

-- The calls of a thread, each with its value.
unfoldable pub run_thread : Bool → Counter → List (ℕ × CountCall) → Counter
unfolding run_count
run_thread include_shared s [] = s
run_thread include_shared s ((v, c) ∷ cs) =
    run_thread include_shared (run_count include_shared v s c) cs

unfoldable pub all_adds : Bool → Counter → List (ℕ × CountCall) → ℕ
unfolding run_count adds_count
all_adds include_shared s [] = 0
all_adds include_shared s ((v, c) ∷ cs) =
    adds_count s c + all_adds include_shared (run_count include_shared v s c) cs

unfoldable pub all_forgets : Bool → Counter → List (ℕ × CountCall) → ℕ
unfolding run_count forgets_count
all_forgets include_shared s [] = 0
all_forgets include_shared s ((v, c) ∷ cs) =
    forgets_count s c + all_forgets include_shared (run_count include_shared v s c) cs

-- insCounter, for any sequence of the calls it inserts, from any state: the four counters of
-- a thread and the branch or call that waits grow together by one for each instruction that executes
-- outside the pragmas, in UINT64, less what the counters have when the work starts anew.
pub run_thread-Same :
    (include_shared : Bool) (s : Counter) (cs : List (ℕ × CountCall))
    → Same64
        (counted (run_thread include_shared s cs) + all_forgets include_shared s cs)
        (counted s + all_adds include_shared s cs)
unfolding run_thread all_adds all_forgets
run_thread-Same include_shared s [] = refl
run_thread-Same include_shared s ((v, c) ∷ cs) = omega (
  arith,
  run_count-Same include_shared v s c,
  run_thread-Same include_shared (run_count include_shared v s c) cs,
)
