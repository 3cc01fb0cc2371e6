-- ===== src/Tracer/Calls.antt =====
-- The calls that Tools/insList.cpp inserts for one instruction, with `doprint` and what was delayed
-- before it.
use mmt_sync.Base.{
  ℕ, ◌≡◌, ap, sym, ◌∙◌, List, [], ◌∷◌, ◌++◌, true, false, arith, Bool-cases, inl, inr, if_true,
  if_false, if◌then◌else◌, subst,
}
use mmt_sync.Trace.{Instruction}
use mmt_sync.Tracer.Defs.{
  Tracer, is_writing, is_printing, is_delayed, proc_ins, flush, delay, doprint,
}
use mmt_sync.Tracer.Instrument.{Register, Knobs, Values, run_call, run_calls}
use mmt_sync.Tracer.Entry.{recorded}
use mmt_sync.Tracer.Sound.{Sound, Step, Step-then}
use mmt_sync.Tracer.Flush.{pending, Flushed, flush-Flushed}
use mmt_sync.Tracer.Executes.{
  printed, PrintedFits, rest_calls, all_calls, called, delay_all, proc_all, doprint_all,
  proc_ins-Step, delay-Step,
}

printing-ignores : (s : Tracer) → is_printing s ≡ true → s.ignorar_print ≡ false
printing-ignores s on = ground arith

pub printing-writes : (s : Tracer) → is_printing s ≡ true → is_writing s ≡ true
printing-writes s on = ground arith

pub doprint-flush :
    (s : Tracer) (pc sp flags memops regops : ℕ)
    → is_printing s ≡ true
    → doprint s pc sp flags memops regops ≡ (
        if is_delayed flags
        then delay (flush s) pc sp flags memops regops
        else proc_ins (flush s) pc sp flags memops regops)
unfolding doprint
doprint-flush s pc sp flags memops regops on =
    if_false s.ignorar_print _ _ (printing-ignores s on)
    ∙ if_true (is_writing s) _ _ (printing-writes s on)

module _ (knobs : Knobs) (tid : ℕ) (v : Values) (flags : ℕ) (ks : List ℕ) (rs : List Register)
    (fits : PrintedFits knobs v flags ks rs) where
  module _ (s : Tracer) (on : is_printing s ≡ true) (sound : Sound s) where
    after : Tracer → Tracer
    after t = run_calls knobs tid v t (rest_calls ks rs)

    flushed : Flushed s
    flushed = flush-Flushed s (printing-writes s on) sound

    still : is_printing (flush s) ≡ true
    still = flushed.printing ∙ on

    writing : is_writing (flush s) ≡ true
    writing = printing-writes (flush s) still

    doprint-later :
        is_delayed flags ≡ true
        → Step s (after (doprint_all knobs v flags ks rs s)) (called knobs tid v flags ks rs s)
    unfolding after
    doprint-later e =
        subst (λ t. Step s (after t) (called knobs tid v flags ks rs s))
          (sym (doprint-flush s v.pc v.sp flags _ _ on ∙ if_true (is_delayed flags) _ _ e))
          (subst (λ xs. Step s (after (delay_all knobs v flags ks rs (flush s))) (pending s ++ xs))
            (sym (if_true (is_delayed flags) [] _ e))
            (Step-then flushed.step (
              delay-Step knobs tid v flags ks rs fits (flush s) still writing flushed.idle
                flushed.step.sound)))

    doprint-now :
        is_delayed flags ≡ false
        → Step s (after (doprint_all knobs v flags ks rs s)) (called knobs tid v flags ks rs s)
    unfolding after
    doprint-now e =
        let more : (base : ℕ) → List Instruction =
          λ base. recorded (flush s) (printed knobs tid v flags ks rs base) ∷ [] in
        subst (λ t. Step s (after t) (called knobs tid v flags ks rs s))
          (sym (doprint-flush s v.pc v.sp flags _ _ on ∙ if_false (is_delayed flags) _ _ e))
          (subst (λ xs. Step s (after (proc_all knobs v flags ks rs (flush s))) (pending s ++ xs))
            (ap more flushed.base ∙ sym (if_false (is_delayed flags) [] _ e))
            (Step-then flushed.step (
              proc_ins-Step knobs tid v flags ks rs fits (flush s) still writing flushed.idle
                flushed.step.sound)))

    pub all_calls-Step :
        Step s
          (run_calls knobs tid v s (all_calls knobs flags ks rs))
          (called knobs tid v flags ks rs s)
    unfolding run_calls run_call after
    all_calls-Step = elim (Bool-cases (is_delayed flags)) [
      | inl e ↦ doprint-later e
      | inr e ↦ doprint-now e
    ]
