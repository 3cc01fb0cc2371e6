-- ===== src/Tracer/Executes.antt =====
-- The calls that Tools/insList.cpp inserts for one instruction, run in their order: `doprint`, the
-- addresses, the registers.
use mathlib.Core.List.{append_assoc, append-nil}
use mmt_sync.Base.{
  ℕ, ◌^◌, ◌<◌, ◌≤◌, ◌≡◌, refl, ap, ap₂, sym, ◌∙◌, List, [], ◌∷◌, ◌++◌, true, false, length, arith,
  if◌then◌else◌, subst,
}
use mmt_sync.Trace.{Instruction}
use mmt_sync.Tracer.Defs.{
  Tracer, write, entry_bytes, is_writing, is_printing, is_delayed, proc_ins, flush, delay, doprint,
}
use mmt_sync.Tracer.Instrument.{
  Register, Knobs, Values, AnalysisCall, call_doprint, regdata_size, memory_calls, register_calls,
  run_calls,
}
use mmt_sync.Tracer.Bytes.{AllFit, entries, list_bytes}
use mmt_sync.Tracer.Stores.{store_all, entries-store_all}
use mmt_sync.Tracer.Counts.{
  length-shown_all, length-registers_bytes, shown_all-AllFit, registers_bytes-AllFit,
}
use mmt_sync.Tracer.Prints.{
  shown_all, registers_bytes, run_calls-append, memory_calls-write, register_calls-write,
  memory_calls-store, register_calls-store, with_memory, with_regis,
}
use mmt_sync.Tracer.Entry.{Executed, ExecutedFits, executed_bytes, recorded}
use mmt_sync.Tracer.Whole.{trace_of, executed-Extends}
use mmt_sync.Tracer.Sound.{Written, Sound, processed, proc_ins-writes, processed-PragmasFit, Step}
use mmt_sync.Tracer.Flush.{pending}

-- What the calls print: the accesses ks and the registers rs.
abbrev pub printed : Knobs → ℕ → Values → ℕ → List ℕ → List Register → ℕ → Executed
printed knobs tid v flags ks rs base = record {
  pc = v.pc;
  sp = v.sp;
  flags = flags;
  addresses = shown_all tid base v ks;
  regs = registers_bytes knobs.x87_size base v 0 rs;
}

entries-stored :
    (a : ℕ → ℕ) (xs : List ℕ) (count : ℕ)
    → length xs ≡ count
    → entries (store_all a 0 xs) 0 count ≡ xs
entries-stored a xs count e =
    ap (entries (store_all a 0 xs) 0) (sym e ∙ omega arith) ∙ entries-store_all a 0 xs

-- The record and the arrays have room for it.
pub record PrintedFits (knobs : Knobs) (v : Values) (flags : ℕ) (ks : List ℕ) (rs : List Register)
    : Type 0 where
  pub pc : v.pc < 256 ^ 8
  pub byte : flags < 256
  pub quant : length ks ≤ 4
  pub size : regdata_size knobs.x87_size rs < 256
  pub addresses : (k : ℕ) → v.address k < 256 ^ 8

abbrev pub rest_calls : List ℕ → List Register → List AnalysisCall
rest_calls ks rs = memory_calls ks ++ register_calls 0 rs

abbrev pub all_calls : Knobs → ℕ → List ℕ → List Register → List AnalysisCall
all_calls knobs flags ks rs =
    call_doprint flags (length ks) (regdata_size knobs.x87_size rs) ∷ rest_calls ks rs

-- What these calls add to the file.
abbrev pub called : Knobs → ℕ → Values → ℕ → List ℕ → List Register → Tracer → List Instruction
called knobs tid v flags ks rs s =
    pending s
    ++ (if is_delayed flags
        then []
        else recorded (flush s) (printed knobs tid v flags ks rs s.sp_base) ∷ [])

abbrev pub delay_all : Knobs → Values → ℕ → List ℕ → List Register → Tracer → Tracer
delay_all knobs v flags ks rs u =
    delay u v.pc v.sp flags (length ks) (regdata_size knobs.x87_size rs)

abbrev pub proc_all : Knobs → Values → ℕ → List ℕ → List Register → Tracer → Tracer
proc_all knobs v flags ks rs u =
    proc_ins u v.pc v.sp flags (length ks) (regdata_size knobs.x87_size rs)

abbrev pub doprint_all : Knobs → Values → ℕ → List ℕ → List Register → Tracer → Tracer
doprint_all knobs v flags ks rs u =
    doprint u v.pc v.sp flags (length ks) (regdata_size knobs.x87_size rs)

module _ (knobs : Knobs) (tid : ℕ) (v : Values) (flags : ℕ) (ks : List ℕ) (rs : List Register)
    (fits : PrintedFits knobs v flags ks rs) where
  printed-ExecutedFits :
      (u : Tracer) → Written u → ExecutedFits u (printed knobs tid v flags ks rs u.sp_base)
  printed-ExecutedFits u kept = record {
    pc = fits.pc;
    flags = fits.byte;
    quant = omega (arith, fits.quant, length-shown_all tid u.sp_base v ks);
    size = omega (arith, fits.size, length-registers_bytes knobs.x87_size u.sp_base v 0 rs);
    addresses = shown_all-AllFit tid u.sp_base v ks fits.addresses;
    priority = kept.priority;
    pragmas = kept.pragmas;
  }

  module _ (u : Tracer) (on : is_printing u ≡ true) (writes : is_writing u ≡ true)
      (idle : u.fun_call_begin ≡ false) (sound : Sound u) where
    i : Executed
    i = printed knobs tid v flags ks rs u.sp_base

    bytes-executed :
        ((u.written ++ entry_bytes u v.pc v.sp flags (length ks) (regdata_size knobs.x87_size rs))
            ++ list_bytes 8 i.addresses)
          ++ i.regs
        ≡ u.written ++ executed_bytes u i []
    unfolding i
    bytes-executed =
        let head : (m r : ℕ) → List ℕ = λ m r. entry_bytes u v.pc v.sp flags m r in
        let h = head (length ks) (regdata_size knobs.x87_size rs) in
        let a = list_bytes 8 i.addresses in
        append_assoc (u.written ++ h) a i.regs
        ∙ append_assoc u.written h (a ++ i.regs)
        ∙ ap₂ (λ l r. u.written ++ (l ++ (a ++ r)))
            (ap₂ head (sym (length-shown_all tid u.sp_base v ks))
              (sym (length-registers_bytes knobs.x87_size u.sp_base v 0 rs)))
            (sym (append-nil i.regs))

    proc_ins-executed :
        run_calls knobs tid v (proc_all knobs v flags ks rs u) (rest_calls ks rs)
        ≡ write (executed_bytes u i []) (processed u flags)
    unfolding i processed
    proc_ins-executed =
        let d =
          write (entry_bytes u v.pc v.sp flags (length ks) (regdata_size knobs.x87_size rs))
            (processed u flags) in
        let a = list_bytes 8 i.addresses in
        ap (λ t. run_calls knobs tid v t (rest_calls ks rs))
          (proc_ins-writes u v.pc v.sp flags _ _ writes)
        ∙ run_calls-append knobs tid v d (memory_calls ks) (register_calls 0 rs)
        ∙ ap (λ t. run_calls knobs tid v t (register_calls 0 rs))
            (memory_calls-write knobs tid v ks d on refl)
        ∙ register_calls-write knobs tid v rs 0 (write a d) on refl
        ∙ ap (λ l. record (processed u flags) { written = l }) bytes-executed

    pub proc_ins-Step :
        Step u
          (run_calls knobs tid v (proc_all knobs v flags ks rs u) (rest_calls ks rs))
          (recorded u (printed knobs tid v flags ks rs u.sp_base) ∷ [])
    unfolding i processed
    proc_ins-Step =
        let added =
          executed-Extends u i u.written (printed-ExecutedFits u sound.kept) sound.kept.whole in
        let pragmas = processed-PragmasFit u flags sound.kept.pragmas in
        subst (λ t. Step u t (recorded u i ∷ [])) (sym proc_ins-executed)
          (record {
            sound = record {
              kept = record {
                whole = added.whole;
                pragmas = record {
                  begin = pragmas.begin;
                  counter = pragmas.counter;
                  ends = pragmas.ends;
                };
                priority = omega arith;
              };
              delayed = λ e. absurd (ground arith);
              no_memory = λ e. sound.no_memory idle;
              no_regis = λ e. sound.no_regis idle;
            };
            trace = added.trace;
          })

    delay-stored :
        run_calls knobs tid v (delay_all knobs v flags ks rs u) (rest_calls ks rs)
        ≡ with_regis (store_all u.stored_delayed_regis 0 i.regs) (length i.regs) (
            with_memory
              (store_all u.stored_delayed_memory 0 i.addresses)
              (length ks)
              (delay_all knobs v flags ks rs u))
    unfolding i
    delay-stored =
        let m = store_all u.stored_delayed_memory 0 i.addresses in
        let t = with_memory m (length ks) (delay_all knobs v flags ks rs u) in
        let no_memory : u.stored_delayed_memory_quan ≡ 0 = sound.no_memory idle in
        let no_regis : u.stored_delayed_regis_quan ≡ 0 = sound.no_regis idle in
        let size = length-registers_bytes knobs.x87_size u.sp_base v 0 rs in
        run_calls-append knobs tid v (delay_all knobs v flags ks rs u) (memory_calls ks)
          (register_calls 0 rs)
        ∙ ap (λ w. run_calls knobs tid v w (register_calls 0 rs))
            (memory_calls-store knobs tid v ks (delay_all knobs v flags ks rs u) on refl
                (omega (arith, no_memory, fits.quant))
              ∙ ap₂
                  (λ q k.
                    with_memory (store_all u.stored_delayed_memory q i.addresses) k
                      (delay_all knobs v flags ks rs u))
                  no_memory (omega (arith, no_memory)))
        ∙ register_calls-store knobs tid v rs 0 t on refl (omega (arith, no_regis, size, fits.size))
        ∙ ap₂ (λ q k. with_regis (store_all u.stored_delayed_regis q i.regs) k t) no_regis
            (omega (arith, no_regis))

    pub delay-Step :
        Step u (run_calls knobs tid v (delay_all knobs v flags ks rs u) (rest_calls ks rs)) []
    unfolding i
    delay-Step =
        let d = with_regis (store_all u.stored_delayed_regis 0 i.regs) (length i.regs) (
          with_memory (store_all u.stored_delayed_memory 0 i.addresses) (length ks)
            (delay_all knobs v flags ks rs u)) in
        let shown = length-shown_all tid u.sp_base v ks in
        let size = length-registers_bytes knobs.x87_size u.sp_base v 0 rs in
        subst (λ t. Step u t []) (sym delay-stored)
          (record {
            sound = record {
              kept = record {
                whole = sound.kept.whole;
                pragmas = record {
                  begin = sound.kept.pragmas.begin;
                  counter = sound.kept.pragmas.counter;
                  ends = sound.kept.pragmas.ends;
                };
                priority = sound.kept.priority;
              };
              delayed = λ e. record {
                memops = refl;
                regops = sym size;
                pc = fits.pc;
                flags = fits.byte;
                quant = fits.quant;
                size = omega (arith, size, fits.size);
                addresses =
                    subst (AllFit 8)
                      (sym (entries-stored u.stored_delayed_memory i.addresses (length ks) shown))
                      (shown_all-AllFit tid u.sp_base v ks fits.addresses);
                regs =
                    subst (AllFit 1)
                      (sym (entries-stored u.stored_delayed_regis i.regs (length i.regs) refl))
                      (registers_bytes-AllFit knobs.x87_size u.sp_base v 0 rs);
                priority = sound.kept.priority;
              };
              no_memory = λ e. absurd (ground arith);
              no_regis = λ e. absurd (ground arith);
            };
            trace = sym (append-nil (trace_of u.written));
          })
