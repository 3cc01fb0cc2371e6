-- ===== src/Tracer/Sound.antt =====
-- Tools/insList.cpp: the state of a thread between two calls of the tool, and the delayed
-- instruction.
use mathlib.Core.List.{append_assoc, append-nil}
use mmt_sync.Base.{
  ℕ, ◌%◌, ◌^◌, ◌<◌, ◌≤◌, ◌≡◌, refl, ap, ap₂, sym, ◌∙◌, List, [], ◌∷◌, ◌++◌, Bool, true, false, not,
  ◌&&◌, arith, if_true, if◌then◌else◌, subst,
}
use mmt_sync.Trace.{Instruction, is_end_hardware_block}
use mmt_sync.Tracer.Defs.{
  Tracer, write, is_writing, entry_bytes, array_bytes, proc_ins, print_delayed_ins, has_pragmas,
  writes_pragmas,
}
use mmt_sync.Tracer.Bytes.{entries, length-entries, array_bytes-entries, AllFit}
use mmt_sync.Tracer.Stores.{list_bytes-bytes}
use mmt_sync.Tracer.Header.{PragmasFit}
use mmt_sync.Tracer.Entry.{Executed, ExecutedFits, executed_bytes, recorded}
use mmt_sync.Tracer.Whole.{IsWhole, trace_of, Extends, executed-Extends}

-- The delayed instruction with what was stored for it.
abbrev pub stored : Tracer → Executed
stored s = record {
  pc = s.stored_delayed_call.pc;
  sp = s.stored_delayed_call.sp;
  flags = s.stored_delayed_call.flags;
  addresses = entries s.stored_delayed_memory 0 s.stored_delayed_memory_quan;
  regs = entries s.stored_delayed_regis 0 s.stored_delayed_regis_quan;
}

-- It has the addresses and registers that its record is to announce.
pub record StoredFits (s : Tracer) : Type 0 where
  pub memops : s.stored_delayed_call.memops ≡ s.stored_delayed_memory_quan
  pub regops : s.stored_delayed_call.regops ≡ s.stored_delayed_regis_quan
  pub pc : s.stored_delayed_call.pc < 256 ^ 8
  pub flags : s.stored_delayed_call.flags < 256
  pub quant : s.stored_delayed_memory_quan ≤ 4
  pub size : s.stored_delayed_regis_quan < 256
  pub addresses : AllFit 8 (entries s.stored_delayed_memory 0 s.stored_delayed_memory_quan)
  pub regs : AllFit 1 (entries s.stored_delayed_regis 0 s.stored_delayed_regis_quan)
  pub priority : s.stored_delayed_call.basic_block_priority < 256 ^ 4

-- The file holds whole records, and what is to be written fits its fields.
pub record Written (s : Tracer) : Type 0 where
  pub whole : IsWhole s.written
  pub pragmas : PragmasFit s
  pub priority : s.basic_block_priority < 256 ^ 4

-- Either an instruction is delayed with all its addresses and registers, or none are stored.
pub record Sound (s : Tracer) : Type 0 where
  pub kept : Written s
  pub delayed : s.fun_call_begin ≡ true → StoredFits s
  pub no_memory : s.fun_call_begin ≡ false → s.stored_delayed_memory_quan ≡ 0
  pub no_regis : s.fun_call_begin ≡ false → s.stored_delayed_regis_quan ≡ 0

-- The state that the delayed instruction is processed in, and what `proc_ins` leaves.
abbrev pub prepared : Tracer → Tracer
prepared s = record s { basic_block_priority = s.stored_delayed_call.basic_block_priority }

unfoldable pub processed : Tracer → ℕ → Tracer
unfolding is_end_hardware_block
processed s flags = record s {
  barrier_flag = false;
  hard_basic_block_begin = is_end_hardware_block (flags % 256);
  fun_call_begin = false;
  fun_call_end = false;
  delayed_branch = s.delayed_branch && not (has_pragmas s);
  basic_block_priority = 0;
  dom_begin_list = if writes_pragmas s then 0 else s.dom_begin_list;
  dom_end_counter = if writes_pragmas s then 0 else s.dom_end_counter;
}

unfoldable pub after_delayed : Tracer → Tracer
unfolding processed
after_delayed s = record (processed (prepared s) s.stored_delayed_call.flags) {
  basic_block_priority = s.basic_block_priority;
  stored_delayed_memory_quan = 0;
  stored_delayed_regis_quan = 0;
}

pub proc_ins-writes :
    (s : Tracer) (pc sp flags memops regops : ℕ)
    → is_writing s ≡ true
    → proc_ins s pc sp flags memops regops
      ≡ write (entry_bytes s pc sp flags memops regops) (processed s flags)
unfolding proc_ins processed
proc_ins-writes s pc sp flags memops regops w = if_true (is_writing s) _ s w

cleared-lt : (b : Bool) (x m : ℕ) → x < m → (if b then 0 else x) < m
cleared-lt b x m lt = ground arith

cleared-AllFit :
    (b : Bool) (a : ℕ → ℕ) (count : ℕ)
    → AllFit 4 (entries a 0 count)
    → AllFit 4 (entries a 0 (if b then 0 else count))
cleared-AllFit true a count fit = tt
cleared-AllFit false a count fit = fit

pub processed-PragmasFit : (s : Tracer) (flags : ℕ) → PragmasFit s → PragmasFit (processed s flags)
unfolding processed
processed-PragmasFit s flags fit = record {
  begin = cleared-lt (writes_pragmas s) s.dom_begin_list (256 ^ 4) fit.begin;
  counter = cleared-lt (writes_pragmas s) s.dom_end_counter (256 ^ 1) fit.counter;
  ends = cleared-AllFit (writes_pragmas s) s.dom_end_list s.dom_end_counter fit.ends;
}

stored-bytes :
    (s : Tracer)
    → StoredFits s
    → entry_bytes
          (prepared s)
          s.stored_delayed_call.pc
          s.stored_delayed_call.sp
          s.stored_delayed_call.flags
          s.stored_delayed_call.memops
          s.stored_delayed_call.regops
        ++ (array_bytes 8 s.stored_delayed_memory 0 s.stored_delayed_memory_quan
            ++ array_bytes 1 s.stored_delayed_regis 0 s.stored_delayed_regis_quan)
      ≡ executed_bytes (prepared s) (stored s) []
stored-bytes s fit =
    let call = s.stored_delayed_call in
    let i = stored s in
    let head : (m r : ℕ) → List ℕ =
      λ m r. entry_bytes (prepared s) call.pc call.sp call.flags m r in
    ap₂ (λ h l. h ++ l)
      (ap₂ head
        (fit.memops ∙ sym (length-entries s.stored_delayed_memory 0 s.stored_delayed_memory_quan))
        (fit.regops ∙ sym (length-entries s.stored_delayed_regis 0 s.stored_delayed_regis_quan)))
      (ap₂ (λ l m. l ++ m)
        (array_bytes-entries 8 s.stored_delayed_memory 0 s.stored_delayed_memory_quan)
        (array_bytes-entries 1 s.stored_delayed_regis 0 s.stored_delayed_regis_quan
          ∙ list_bytes-bytes i.regs fit.regs
          ∙ sym (append-nil i.regs)))

pub print_delayed_ins-writes :
    (s : Tracer)
    → is_writing s ≡ true
    → StoredFits s
    → print_delayed_ins s ≡ write (executed_bytes (prepared s) (stored s) []) (after_delayed s)
unfolding print_delayed_ins after_delayed
print_delayed_ins-writes s w fit =
    let call = s.stored_delayed_call in
    let bytes =
      array_bytes 8 s.stored_delayed_memory 0 s.stored_delayed_memory_quan
      ++ array_bytes 1 s.stored_delayed_regis 0 s.stored_delayed_regis_quan in
    let finish : Tracer → Tracer = λ after. record (write bytes after) {
      basic_block_priority = s.basic_block_priority;
      stored_delayed_memory_quan = 0;
      stored_delayed_regis_quan = 0;
    } in
    ap finish (proc_ins-writes (prepared s) call.pc call.sp call.flags call.memops call.regops w)
    ∙ ap (λ l. record (after_delayed s) { written = l })
        (append_assoc s.written
            (entry_bytes (prepared s) call.pc call.sp call.flags call.memops call.regops) bytes
          ∙ ap (λ l. s.written ++ l) (stored-bytes s fit))

-- What a call leaves, and the instructions it has added to the file.
pub record Step (before after : Tracer) (more : List Instruction) : Type 0 where
  pub sound : Sound after
  pub trace : trace_of after.written ≡ trace_of before.written ++ more

pub Step-refl : (s : Tracer) → Sound s → Step s s []
Step-refl s sound = record { sound = sound; trace = sym (append-nil (trace_of s.written)) }

pub Step-then :
    {r s t : Tracer} {xs ys : List Instruction} → Step r s xs → Step s t ys → Step r t (xs ++ ys)
Step-then {r} {s} {t} {xs} {ys} f g = record {
  sound = g.sound;
  trace = g.trace ∙ ap (λ l. l ++ ys) f.trace ∙ append_assoc (trace_of r.written) xs ys;
}

pub stored-ExecutedFits :
    (s : Tracer) → StoredFits s → PragmasFit s → ExecutedFits (prepared s) (stored s)
stored-ExecutedFits s fit pragmas =
    let quant = length-entries s.stored_delayed_memory 0 s.stored_delayed_memory_quan in
    let size = length-entries s.stored_delayed_regis 0 s.stored_delayed_regis_quan in
    record {
      pc = fit.pc;
      flags = fit.flags;
      quant = omega (arith, quant, fit.quant);
      size = omega (arith, size, fit.size);
      addresses = fit.addresses;
      priority = fit.priority;
      pragmas = record { begin = pragmas.begin; counter = pragmas.counter; ends = pragmas.ends };
    }

-- The delayed instruction is added to the file, and none is delayed after it.
pub print_delayed_ins-Step :
    (s : Tracer)
    → is_writing s ≡ true
    → Written s
    → StoredFits s
    → Step s (print_delayed_ins s) (recorded (prepared s) (stored s) ∷ [])
unfolding after_delayed
print_delayed_ins-Step s w kept fit =
    let added : Extends s.written (s.written ++ executed_bytes (prepared s) (stored s) [])
        (recorded (prepared s) (stored s) ∷ []) =
      executed-Extends (prepared s) (stored s) s.written (stored-ExecutedFits s fit kept.pragmas)
        kept.whole in
    let fits = processed-PragmasFit (prepared s) s.stored_delayed_call.flags (record {
      begin = kept.pragmas.begin;
      counter = kept.pragmas.counter;
      ends = kept.pragmas.ends;
    }) in
    subst (λ t. Step s t (recorded (prepared s) (stored s) ∷ []))
      (sym (print_delayed_ins-writes s w fit))
      (record {
        sound = record {
          kept = record {
            whole = added.whole;
            pragmas = record { begin = fits.begin; counter = fits.counter; ends = fits.ends };
            priority = kept.priority;
          };
          delayed = λ e. absurd (ground arith);
          no_memory = λ e. refl;
          no_regis = λ e. refl;
        };
        trace = added.trace;
      })
