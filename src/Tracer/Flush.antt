-- ===== src/Tracer/Flush.antt =====
-- `doprint` of Tools/insList.cpp: the delayed instruction goes to the file before the next one.
use mmt_sync.Base.{
  ◌≡◌, ap, sym, ◌∙◌, List, [], ◌∷◌, true, false, Bool-cases, inl, inr, if_true, if_false,
  if◌then◌else◌, subst,
}
use mmt_sync.Trace.{Instruction}
use mmt_sync.Tracer.Defs.{Tracer, is_writing, is_printing, print_delayed_ins, flush}
use mmt_sync.Tracer.Entry.{recorded}
use mmt_sync.Tracer.Sound.{
  stored, StoredFits, Written, Sound, prepared, after_delayed, print_delayed_ins-writes, Step,
  Step-refl, print_delayed_ins-Step,
}

-- The state in which `doprint` processes a delayed instruction: it is no call of a function that
-- starts with a pragma.
abbrev pub uncalled : Tracer → Tracer
uncalled s = record s { fun_call_begin = false; delayed_branch = true }

-- What `doprint` adds to the file for the delayed instruction, if there is one.
abbrev pub pending : Tracer → List Instruction
pending s = if s.fun_call_begin then recorded (prepared (uncalled s)) (stored s) ∷ [] else []

-- No instruction is delayed after it, and the tool goes on as before.
pub record Flushed (s : Tracer) : Type 0 where
  pub step : Step s (flush s) (pending s)
  pub idle : (flush s).fun_call_begin ≡ false
  pub printing : is_printing (flush s) ≡ is_printing s
  pub base : (flush s).sp_base ≡ s.sp_base

module _ (s : Tracer) (writes : is_writing s ≡ true) (sound : Sound s) where
  uncalled-Written : Written (uncalled s)
  uncalled-Written = record {
    whole = sound.kept.whole;
    pragmas = record {
      begin = sound.kept.pragmas.begin;
      counter = sound.kept.pragmas.counter;
      ends = sound.kept.pragmas.ends;
    };
    priority = sound.kept.priority;
  }

  uncalled-StoredFits : StoredFits s → StoredFits (uncalled s)
  uncalled-StoredFits fit = record {
    memops = fit.memops;
    regops = fit.regops;
    pc = fit.pc;
    flags = fit.flags;
    quant = fit.quant;
    size = fit.size;
    addresses = fit.addresses;
    regs = fit.regs;
    priority = fit.priority;
  }

  flush-delayed : s.fun_call_begin ≡ true → Flushed s
  unfolding after_delayed
  flush-delayed e =
      let fits = uncalled-StoredFits (sound.delayed e) in
      let closed =
        if_true s.fun_call_begin _ s e ∙ print_delayed_ins-writes (uncalled s) writes fits in
      let done = print_delayed_ins-Step (uncalled s) writes uncalled-Written fits in
      record {
        step =
            subst (λ t. Step s t (pending s)) (sym (if_true s.fun_call_begin _ s e))
              (subst (λ xs. Step s (print_delayed_ins (uncalled s)) xs)
                (sym (if_true s.fun_call_begin _ [] e))
                (record { sound = done.sound; trace = done.trace }));
        idle = ap (λ t. t.fun_call_begin) closed;
        printing = ap is_printing closed;
        base = ap (λ t. t.sp_base) closed;
      }

  flush-idle : s.fun_call_begin ≡ false → Flushed s
  flush-idle e =
      let closed = if_false s.fun_call_begin _ s e in
      record {
        step =
            subst (λ t. Step s t (pending s)) (sym closed)
              (subst (λ xs. Step s s xs) (sym (if_false s.fun_call_begin _ [] e))
                (Step-refl s sound));
        idle = ap (λ t. t.fun_call_begin) closed ∙ e;
        printing = ap is_printing closed;
        base = ap (λ t. t.sp_base) closed;
      }

  pub flush-Flushed : Flushed s
  flush-Flushed = elim (Bool-cases s.fun_call_begin) [
    | inl e ↦ flush-delayed e
    | inr e ↦ flush-idle e
  ]
