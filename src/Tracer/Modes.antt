-- ===== src/Tracer/Modes.antt =====
-- Tools/insList.cpp: when the tool prints, and which instruction waits, call by call.
use mmt_sync.Base.{
  ℕ, suc, ◌+◌, ◌%◌, ◌≡◌, refl, ◌∙◌, List, [], ◌∷◌, Bool, true, not, ◌&&◌, ◌==◌, if◌then◌else◌,
  if_elim, update,
}
use mmt_sync.Tracer.Defs.{
  Tracer, is_writing, is_printing, proc_ins, print_delayed_ins, flush, print_memory,
  print_register_data, print_register, print_register_ref, print_register_stack, number_bytes,
  relative_sp,
}
use mmt_sync.Tracer.Instrument.{
  Register, stack, x87, floating, mmx, xmm, common, Knobs, Values, memory_calls, register_calls,
  print_fpstate, run_register, run_call, run_calls,
}
use mmt_sync.Tracer.Executes.{rest_calls}

-- What decides about printing: an open file, no instructions between two calls of a pragma, and the
-- depth of critical sections.
pub record Mode : Type 0 where
  pub opened : Bool
  pub off : Bool
  pub depth : ℕ

abbrev pub mode : Tracer → Mode
mode s = record { opened = s.opened; off = s.ignorar_print; depth = s.secao_critica }

abbrev pub shows : Mode → Bool
shows m = not m.off && (m.opened && (m.depth == 0))

-- The pc of the instruction that waits.
abbrev pub waiting : Tracer → List ℕ
waiting s = if s.fun_call_begin then s.stored_delayed_call.pc ∷ [] else []

-- Printing the operands changes neither.
pub record Goes (s u : Tracer) : Type 0 where
  pub mode_eq : mode u ≡ mode s
  pub waiting_eq : waiting u ≡ waiting s

Goes-refl : (s : Tracer) → Goes s s
Goes-refl s = record { mode_eq = refl; waiting_eq = refl }

Goes-then : {r s t : Tracer} → Goes r s → Goes s t → Goes r t
Goes-then f g = record { mode_eq = g.mode_eq ∙ f.mode_eq; waiting_eq = g.waiting_eq ∙ f.waiting_eq }

print_register_data-Goes : (bytes : List ℕ) (s : Tracer) → Goes s (print_register_data s bytes)
unfolding print_register_data
print_register_data-Goes [] s = Goes-refl s
print_register_data-Goes (b ∷ bs) s =
    let stored : Tracer = record s {
      stored_delayed_regis = update s.stored_delayed_regis s.stored_delayed_regis_quan b;
      stored_delayed_regis_quan = (s.stored_delayed_regis_quan + 1) % 256;
    } in
    if_elim (Goes s) s.fun_call_begin (print_register_data stored bs) _
      (λ e.
        Goes-then (record { mode_eq = refl; waiting_eq = refl })
          (print_register_data-Goes bs stored))
      (λ e. record { mode_eq = refl; waiting_eq = refl })

printed-Goes :
    (s : Tracer) (bytes : List ℕ)
    → Goes s (if is_printing s then print_register_data s bytes else s)
printed-Goes s bytes =
    if_elim (Goes s) (is_printing s) _ s (λ e. print_register_data-Goes bytes s) (λ e. Goes-refl s)

run_register-Goes :
    (x87_size : ℕ) (s : Tracer) (r : Register) (v : ℕ) → Goes s (run_register x87_size s r v)
unfolding run_register print_fpstate print_register print_register_ref print_register_stack
run_register-Goes x87_size s stack v = printed-Goes s (number_bytes 8 (relative_sp s.sp_base v))
run_register-Goes x87_size s x87 v = printed-Goes s (number_bytes x87_size v)
run_register-Goes x87_size s floating v = printed-Goes s (number_bytes 10 v)
run_register-Goes x87_size s mmx v = printed-Goes s (number_bytes 10 v)
run_register-Goes x87_size s xmm v = printed-Goes s (number_bytes 16 v)
run_register-Goes x87_size s common v = printed-Goes s (number_bytes 8 v)

print_memory-Goes : (tid : ℕ) (s : Tracer) (addre sp : ℕ) → Goes s (print_memory tid s addre sp)
unfolding print_memory
print_memory-Goes tid s addre sp =
    if_elim (Goes s) (is_printing s) _ s
      (λ on.
        if_elim (Goes s) s.fun_call_begin _ _ (λ e. record { mode_eq = refl; waiting_eq = refl })
          (λ e. record { mode_eq = refl; waiting_eq = refl }))
      (λ off. Goes-refl s)

module _ (knobs : Knobs) (tid : ℕ) (v : Values) where
  register_calls-Goes :
      (s : Tracer) (k : ℕ) (rs : List Register)
      → Goes s (run_calls knobs tid v s (register_calls k rs))
  unfolding run_calls run_call register_calls
  register_calls-Goes s k [] = Goes-refl s
  register_calls-Goes s k (r ∷ rs) =
      Goes-then (run_register-Goes knobs.x87_size s r (v.register k))
        (register_calls-Goes (run_register knobs.x87_size s r (v.register k)) (suc k) rs)

  pub rest_calls-Goes :
      (s : Tracer) (ks : List ℕ) (rs : List Register)
      → Goes s (run_calls knobs tid v s (rest_calls ks rs))
  unfolding run_calls run_call memory_calls
  rest_calls-Goes s [] rs = register_calls-Goes s 0 rs
  rest_calls-Goes s (k ∷ ks) rs =
      Goes-then (print_memory-Goes tid s (v.address k) v.sp)
        (rest_calls-Goes (print_memory tid s (v.address k) v.sp) ks rs)

-- The processed instruction does not wait, and the mode is as before.
pub proc_ins-mode :
    (s : Tracer) (pc sp flags memops regops : ℕ)
    → mode (proc_ins s pc sp flags memops regops) ≡ mode s
unfolding proc_ins
proc_ins-mode s pc sp flags memops regops =
    if_elim (λ t. mode t ≡ mode s) (is_writing s) _ s (λ e. refl) (λ e. refl)

pub proc_ins-waiting :
    (s : Tracer) (pc sp flags memops regops : ℕ)
    → is_writing s ≡ true
    → waiting (proc_ins s pc sp flags memops regops) ≡ []
unfolding proc_ins
proc_ins-waiting s pc sp flags memops regops w = rw w refl

pub print_delayed_ins-mode : (s : Tracer) → mode (print_delayed_ins s) ≡ mode s
unfolding print_delayed_ins
print_delayed_ins-mode s =
    let call = s.stored_delayed_call in
    proc_ins-mode (record s { basic_block_priority = call.basic_block_priority }) call.pc call.sp
      call.flags call.memops call.regops

pub flush-mode : (s : Tracer) → mode (flush s) ≡ mode s
flush-mode s =
    if_elim (λ t. mode t ≡ mode s) s.fun_call_begin _ s (λ e. print_delayed_ins-mode _) (λ e. refl)
