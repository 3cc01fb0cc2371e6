-- ===== src/Tracer/Prints.antt =====
-- Tools/insList.cpp: what the calls for the addresses and registers of an instruction do, when its
-- record has been written and when it is delayed.
use mathlib.Core.List.{append_assoc, append-nil}
use mmt_sync.Base.{
  ℕ, suc, ◌+◌, ◌%◌, ◌<◌, ◌≡◌, refl, ap, ap₂, sym, ◌∙◌, List, [], ◌∷◌, ◌++◌, true, false, arith,
  length, length-append, update, if_true, if_false,
}
use mmt_sync.Tracer.Defs.{
  Tracer, number_bytes, is_printing, shown_address, relative_sp, print_memory, print_register_data,
  write, print_register, print_register_ref, print_register_stack,
}
use mmt_sync.Tracer.Instrument.{
  Register, stack, x87, floating, mmx, xmm, common, Knobs, Values, AnalysisCall, memory_calls,
  register_calls, print_fpstate, run_register, run_call, run_calls,
}
use mmt_sync.Tracer.Bytes.{list_bytes}
use mmt_sync.Tracer.Stores.{store_all, store_all-append}

unfoldable pub shown_all : ℕ → ℕ → Values → List ℕ → List ℕ
shown_all tid base v [] = []
shown_all tid base v (k ∷ ks) = shown_address tid base v.sp (v.address k) ∷ shown_all tid base v ks

unfoldable pub register_bytes : ℕ → ℕ → Register → ℕ → List ℕ
register_bytes x87_size base stack v = number_bytes 8 (relative_sp base v)
register_bytes x87_size base x87 v = number_bytes x87_size v
register_bytes x87_size base floating v = number_bytes 10 v
register_bytes x87_size base mmx v = number_bytes 10 v
register_bytes x87_size base xmm v = number_bytes 16 v
register_bytes x87_size base common v = number_bytes 8 v

unfoldable pub registers_bytes : ℕ → ℕ → Values → ℕ → List Register → List ℕ
unfolding register_bytes
registers_bytes x87_size base v k [] = []
registers_bytes x87_size base v k (r ∷ rs) =
    register_bytes x87_size base r (v.register k) ++ registers_bytes x87_size base v (suc k) rs

abbrev pub with_written : List ℕ → Tracer → Tracer
with_written w s = record s { written = w }

abbrev pub with_memory : (ℕ → ℕ) → ℕ → Tracer → Tracer
with_memory a q s = record s { stored_delayed_memory = a; stored_delayed_memory_quan = q }

abbrev pub with_regis : (ℕ → ℕ) → ℕ → Tracer → Tracer
with_regis a q s = record s { stored_delayed_regis = a; stored_delayed_regis_quan = q }

pub run_calls-append :
    (knobs : Knobs) (tid : ℕ) (v : Values) (s : Tracer) (cs ds : List AnalysisCall)
    → run_calls knobs tid v s (cs ++ ds) ≡ run_calls knobs tid v (run_calls knobs tid v s cs) ds
unfolding run_calls
run_calls-append knobs tid v s [] ds = refl
run_calls-append knobs tid v s (c ∷ cs) ds =
    run_calls-append knobs tid v (run_call knobs tid v s c) cs ds

print_memory-write :
    (tid : ℕ) (s : Tracer) (addre sp : ℕ)
    → is_printing s ≡ true
    → s.fun_call_begin ≡ false
    → print_memory tid s addre sp ≡ write (number_bytes 8 (shown_address tid s.sp_base sp addre)) s
unfolding print_memory
print_memory-write tid s addre sp on idle =
    if_true (is_printing s) _ s on ∙ if_false s.fun_call_begin _ _ idle

print_memory-store :
    (tid : ℕ) (s : Tracer) (addre sp : ℕ)
    → is_printing s ≡ true
    → s.fun_call_begin ≡ true
    → s.stored_delayed_memory_quan + 1 < 256
    → print_memory tid s addre sp
      ≡ with_memory
          (update s.stored_delayed_memory s.stored_delayed_memory_quan
            (shown_address tid s.sp_base sp addre))
          (suc s.stored_delayed_memory_quan)
          s
unfolding print_memory
print_memory-store tid s addre sp on delayed lt =
    if_true (is_printing s) _ s on
    ∙ if_true s.fun_call_begin _ _ delayed
    ∙ ap
        (λ q.
          with_memory
            (update s.stored_delayed_memory s.stored_delayed_memory_quan
              (shown_address tid s.sp_base sp addre))
            q s)
        (omega arith)

-- While the tool prints, each kind of register ends in `print_register_data`.
run_register-prints :
    (x87_size : ℕ) (s : Tracer) (r : Register) (v : ℕ)
    → is_printing s ≡ true
    → run_register x87_size s r v ≡ print_register_data s (register_bytes x87_size s.sp_base r v)
unfolding run_register register_bytes print_fpstate print_register print_register_ref
    print_register_stack
run_register-prints x87_size s stack v on = if_true (is_printing s) _ s on
run_register-prints x87_size s x87 v on = if_true (is_printing s) _ s on
run_register-prints x87_size s floating v on = if_true (is_printing s) _ s on
run_register-prints x87_size s mmx v on = if_true (is_printing s) _ s on
run_register-prints x87_size s xmm v on = if_true (is_printing s) _ s on
run_register-prints x87_size s common v on = if_true (is_printing s) _ s on

data-write :
    (bytes : List ℕ) (s : Tracer)
    → s.fun_call_begin ≡ false
    → print_register_data s bytes ≡ write bytes s
unfolding print_register_data
data-write [] s idle = ap (λ l. with_written l s) (sym (append-nil s.written))
data-write (b ∷ bytes) s idle = if_false s.fun_call_begin _ _ idle

data-store :
    (bytes : List ℕ) (s : Tracer)
    → s.fun_call_begin ≡ true
    → s.stored_delayed_regis_quan + length bytes < 256
    → print_register_data s bytes
      ≡ with_regis
          (store_all s.stored_delayed_regis s.stored_delayed_regis_quan bytes)
          (s.stored_delayed_regis_quan + length bytes)
          s
unfolding print_register_data store_all
data-store [] s delayed lt = ap (λ k. with_regis s.stored_delayed_regis k s) (omega arith)
data-store (b ∷ bytes) s delayed lt =
    let q = s.stored_delayed_regis_quan in
    let a = update s.stored_delayed_regis q b in
    let next : (q + 1) % 256 ≡ suc q = omega arith in
    if_true s.fun_call_begin _ _ delayed
    ∙ ap (λ k. print_register_data (with_regis a k s) bytes) next
    ∙ data-store bytes (with_regis a (suc q) s) delayed (omega arith)
    ∙ ap (λ k. with_regis (store_all a (suc q) bytes) k s) (omega arith)

module _ (knobs : Knobs) (tid : ℕ) (v : Values) where
  pub memory_calls-write :
      (ks : List ℕ) (s : Tracer)
      → is_printing s ≡ true
      → s.fun_call_begin ≡ false
      → run_calls knobs tid v s (memory_calls ks)
        ≡ write (list_bytes 8 (shown_all tid s.sp_base v ks)) s
  unfolding run_calls memory_calls list_bytes shown_all
  memory_calls-write [] s on idle = ap (λ l. with_written l s) (sym (append-nil s.written))
  memory_calls-write (k ∷ ks) s on idle =
      let bytes = number_bytes 8 (shown_address tid s.sp_base v.sp (v.address k)) in
      ap (λ r. run_calls knobs tid v r (memory_calls ks))
        (print_memory-write tid s (v.address k) v.sp on idle)
      ∙ memory_calls-write ks (write bytes s) on idle
      ∙ ap (λ l. with_written l s)
          (append_assoc s.written bytes (list_bytes 8 (shown_all tid s.sp_base v ks)))

  pub register_calls-write :
      (rs : List Register) (k : ℕ) (s : Tracer)
      → is_printing s ≡ true
      → s.fun_call_begin ≡ false
      → run_calls knobs tid v s (register_calls k rs)
        ≡ write (registers_bytes knobs.x87_size s.sp_base v k rs) s
  unfolding run_calls register_calls registers_bytes
  register_calls-write [] k s on idle = ap (λ l. with_written l s) (sym (append-nil s.written))
  register_calls-write (r ∷ rs) k s on idle =
      let bytes = register_bytes knobs.x87_size s.sp_base r (v.register k) in
      ap (λ u. run_calls knobs tid v u (register_calls (suc k) rs))
        (run_register-prints knobs.x87_size s r (v.register k) on ∙ data-write bytes s idle)
      ∙ register_calls-write rs (suc k) (write bytes s) on idle
      ∙ ap (λ l. with_written l s)
          (append_assoc s.written bytes (registers_bytes knobs.x87_size s.sp_base v (suc k) rs))

  pub memory_calls-store :
      (ks : List ℕ) (s : Tracer)
      → is_printing s ≡ true
      → s.fun_call_begin ≡ true
      → s.stored_delayed_memory_quan + length ks < 256
      → run_calls knobs tid v s (memory_calls ks)
        ≡ with_memory
            (store_all s.stored_delayed_memory s.stored_delayed_memory_quan
              (shown_all tid s.sp_base v ks))
            (s.stored_delayed_memory_quan + length ks)
            s
  unfolding run_calls memory_calls shown_all store_all
  memory_calls-store [] s on delayed lt =
      ap (λ q. with_memory s.stored_delayed_memory q s) (omega arith)
  memory_calls-store (k ∷ ks) s on delayed lt =
      let q = s.stored_delayed_memory_quan in
      let a = update s.stored_delayed_memory q (shown_address tid s.sp_base v.sp (v.address k)) in
      ap (λ u. run_calls knobs tid v u (memory_calls ks))
        (print_memory-store tid s (v.address k) v.sp on delayed (omega arith))
      ∙ memory_calls-store ks (with_memory a (suc q) s) on delayed (omega arith)
      ∙ ap (λ m. with_memory (store_all a (suc q) (shown_all tid s.sp_base v ks)) m s) (omega arith)

  pub register_calls-store :
      (rs : List Register) (k : ℕ) (s : Tracer)
      → is_printing s ≡ true
      → s.fun_call_begin ≡ true
      → s.stored_delayed_regis_quan + length (registers_bytes knobs.x87_size s.sp_base v k rs) < 256
      → run_calls knobs tid v s (register_calls k rs)
        ≡ with_regis
            (store_all s.stored_delayed_regis s.stored_delayed_regis_quan
              (registers_bytes knobs.x87_size s.sp_base v k rs))
            (s.stored_delayed_regis_quan + length (registers_bytes knobs.x87_size s.sp_base v k rs))
            s
  unfolding run_calls register_calls registers_bytes store_all
  register_calls-store [] k s on delayed lt =
      ap (λ q. with_regis s.stored_delayed_regis q s) (omega arith)
  register_calls-store (r ∷ rs) k s on delayed lt =
      let q = s.stored_delayed_regis_quan in
      let bytes = register_bytes knobs.x87_size s.sp_base r (v.register k) in
      let more = registers_bytes knobs.x87_size s.sp_base v (suc k) rs in
      let a = store_all s.stored_delayed_regis q bytes in
      let sum : length (bytes ++ more) ≡ length bytes + length more = length-append bytes more in
      ap (λ u. run_calls knobs tid v u (register_calls (suc k) rs))
        (run_register-prints knobs.x87_size s r (v.register k) on
          ∙ data-store bytes s delayed (omega (arith, sum)))
      ∙ register_calls-store rs (suc k) (with_regis a (q + length bytes) s) on delayed
          (omega (arith, sum))
      ∙ ap₂ (λ b m. with_regis b m s) (sym (store_all-append s.stored_delayed_regis q bytes more))
          (omega (arith, sum))
