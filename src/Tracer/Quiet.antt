-- ===== src/Tracer/Quiet.antt =====
-- Tools/insList.cpp: the calls of an instruction while the tool does not print, in a critical
-- section, between the calls of a pragma, or when no file is open.
use mmt_sync.Base.{
  ℕ, suc, ◌≡◌, refl, ap, ◌∙◌, List, [], ◌∷◌, ◌++◌, false, arith, Bool-cases, inl, inr, if_true,
  if_false,
}
use mmt_sync.Tracer.Defs.{
  Tracer, is_writing, is_printing, proc_ins, doprint, print_memory, print_register,
  print_register_ref, print_register_stack,
}
use mmt_sync.Tracer.Instrument.{
  Register, stack, x87, floating, mmx, xmm, common, Knobs, Values, memory_calls, register_calls,
  print_fpstate, run_register, run_call, run_calls,
}
use mmt_sync.Tracer.Prints.{run_calls-append}
use mmt_sync.Tracer.Executes.{all_calls}

proc_ins-quiet :
    (s : Tracer) (pc sp flags memops regops : ℕ)
    → is_writing s ≡ false
    → proc_ins s pc sp flags memops regops ≡ s
unfolding proc_ins
proc_ins-quiet s pc sp flags memops regops w = if_false (is_writing s) _ s w

doprint-quiet :
    (s : Tracer) (pc sp flags memops regops : ℕ)
    → is_printing s ≡ false
    → doprint s pc sp flags memops regops ≡ s
unfolding doprint
doprint-quiet s pc sp flags memops regops off = elim (Bool-cases s.ignorar_print) [
  | inl e ↦ if_true s.ignorar_print s _ e
  | inr e ↦
      let w : is_writing s ≡ false = ground arith in
      if_false s.ignorar_print s _ e
      ∙ if_false (is_writing s) _ _ w
      ∙ proc_ins-quiet s pc sp flags memops regops w
]

run_register-quiet :
    (x87_size : ℕ) (s : Tracer) (r : Register) (v : ℕ)
    → is_printing s ≡ false
    → run_register x87_size s r v ≡ s
unfolding run_register print_fpstate print_register print_register_ref print_register_stack
run_register-quiet x87_size s stack v off = if_false (is_printing s) _ s off
run_register-quiet x87_size s x87 v off = if_false (is_printing s) _ s off
run_register-quiet x87_size s floating v off = if_false (is_printing s) _ s off
run_register-quiet x87_size s mmx v off = if_false (is_printing s) _ s off
run_register-quiet x87_size s xmm v off = if_false (is_printing s) _ s off
run_register-quiet x87_size s common v off = if_false (is_printing s) _ s off

module _ (knobs : Knobs) (tid : ℕ) (v : Values) (s : Tracer) (off : is_printing s ≡ false) where
  memory_calls-quiet : (ks : List ℕ) → run_calls knobs tid v s (memory_calls ks) ≡ s
  unfolding run_calls run_call memory_calls print_memory
  memory_calls-quiet [] = refl
  memory_calls-quiet (k ∷ ks) =
      ap (λ t. run_calls knobs tid v t (memory_calls ks)) (if_false (is_printing s) _ s off)
      ∙ memory_calls-quiet ks

  register_calls-quiet :
      (k : ℕ) (rs : List Register) → run_calls knobs tid v s (register_calls k rs) ≡ s
  unfolding run_calls run_call register_calls
  register_calls-quiet k [] = refl
  register_calls-quiet k (r ∷ rs) =
      ap (λ t. run_calls knobs tid v t (register_calls (suc k) rs))
        (run_register-quiet knobs.x87_size s r (v.register k) off)
      ∙ register_calls-quiet (suc k) rs

  pub all_calls-quiet :
      (flags : ℕ) (ks : List ℕ) (rs : List Register)
      → run_calls knobs tid v s (all_calls knobs flags ks rs) ≡ s
  unfolding run_calls run_call
  all_calls-quiet flags ks rs =
      ap (λ t. run_calls knobs tid v t (memory_calls ks ++ register_calls 0 rs))
        (doprint-quiet s v.pc v.sp flags _ _ off)
      ∙ run_calls-append knobs tid v s (memory_calls ks) (register_calls 0 rs)
      ∙ ap (λ t. run_calls knobs tid v t (register_calls 0 rs)) (memory_calls-quiet ks)
      ∙ register_calls-quiet 0 rs
