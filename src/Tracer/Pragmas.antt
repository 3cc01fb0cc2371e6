-- ===== src/Tracer/Pragmas.antt =====
-- `dopragma` of Tools/insList.cpp: what the pragmas change and add to the file.
use mathlib.Core.List.{append-nil}
use mmt_sync.Base.{
  ℕ, suc, ◌+◌, ◌-◌, ◌%◌, ◌^◌, ◌<◌, ◌≡◌, ap, ap₂, sym, ◌∙◌, subst, List, [], ◌∷◌, Bool, true, false,
  ◌&&◌, ltb, ◌==◌, arith, if_true, if_false, if_elim, if◌then◌else◌, update, Bool-cases, inl, inr,
}
use mmt_sync.Trace.{Instruction}
use mmt_sync.Tracer.Defs.{Tracer, is_writing, print_delayed_ins}
use mmt_sync.Tracer.Events.{
  do_code, dopragma, mutex_lock, mutex_unlock, code_fun_begin, code_fun_end, code_ignore_begin,
  code_ignore_end, min_dom_begin, max_dom_begin, min_dom_end, max_dom_end, basic_block_priority_min,
  basic_block_priority_max,
}
use mmt_sync.Tracer.Bytes.{entries, AllFit}
use mmt_sync.Tracer.Stores.{AllFit-append, entries-snoc}
use mmt_sync.Tracer.Entry.{recorded}
use mmt_sync.Tracer.Whole.{trace_of}
use mmt_sync.Tracer.Sound.{stored, Sound, prepared, Step, Step-refl, print_delayed_ins-Step}

-- `dom_end_list[counter] = x; counter++;`
push-AllFit :
    (a : ℕ → ℕ) (c x : ℕ)
    → c < 256
    → AllFit 4 (entries a 0 c)
    → x < 256 ^ 4
    → AllFit 4 (entries (update a c x) 0 ((c + 1) % 256))
push-AllFit a c x lt fit small = elim (Bool-cases (ltb (suc c) 256)) [
  | inl e ↦
      let grown : (c + 1) % 256 ≡ suc c = ground arith in
      subst (AllFit 4) (sym (ap (entries (update a c x) 0) grown ∙ entries-snoc a c x))
        (AllFit-append 4 (entries a 0 c) (x ∷ []) fit (small, tt))
  | inr e ↦
      let wrapped : (c + 1) % 256 ≡ 0 = ground arith in
      subst (λ n. AllFit 4 (entries (update a c x) 0 n)) (sym wrapped) tt
]

-- What the code for a function's begin adds: the call that was delayed for it.
abbrev pub begins : Tracer → ℕ → List Instruction
begins s arg =
    if (arg == code_fun_begin) && s.fun_call_begin
    then recorded (prepared s) (stored s) ∷ []
    else []

-- What a pragma adds: it is read between the calls of `exec_pragma`, outside a critical section.
abbrev pub pragma_adds : Tracer → ℕ → List Instruction
pragma_adds s arg =
    if (s.ignorar_print && is_writing s) && ((arg == code_fun_begin) && s.fun_call_begin)
    then recorded (prepared s) (stored s) ∷ []
    else []

module _ (s : Tracer) (sound : Sound s) where
  -- The same file and the same delayed instruction, with pragmas that fit.
  pub same-Step :
      (opened ignorar fun_end barrier : Bool) (secao priority begin count : ℕ) (ends : ℕ → ℕ)
      → priority < 256 ^ 4
      → begin < 256 ^ 4
      → count < 256 ^ 1
      → AllFit 4 (entries ends 0 count)
      → Step s
          (record s {
            opened = opened;
            secao_critica = secao;
            ignorar_print = ignorar;
            fun_call_end = fun_end;
            barrier_flag = barrier;
            basic_block_priority = priority;
            dom_begin_list = begin;
            dom_end_list = ends;
            dom_end_counter = count;
          })
          []
  same-Step opened ignorar fun_end barrier secao priority begin count ends p b c e = record {
    sound = record {
      kept = record {
        whole = sound.kept.whole;
        pragmas = record { begin = b; counter = c; ends = e };
        priority = p;
      };
      delayed = λ h.
          let fit = sound.delayed h in
          record {
            memops = fit.memops;
            regops = fit.regops;
            pc = fit.pc;
            flags = fit.flags;
            quant = fit.quant;
            size = fit.size;
            addresses = fit.addresses;
            regs = fit.regs;
            priority = fit.priority;
          };
      no_memory = sound.no_memory;
      no_regis = sound.no_regis;
    };
    trace = sym (append-nil (trace_of s.written));
  }

  -- The fields that say nothing of what is to be written.
  pub modes-Step :
      (opened ignorar fun_end barrier : Bool) (secao : ℕ)
      → Step s
          (record s {
            opened = opened;
            secao_critica = secao;
            ignorar_print = ignorar;
            fun_call_end = fun_end;
            barrier_flag = barrier;
          })
          []
  modes-Step opened ignorar fun_end barrier secao =
      same-Step opened ignorar fun_end barrier secao s.basic_block_priority s.dom_begin_list
        s.dom_end_counter s.dom_end_list sound.kept.priority sound.kept.pragmas.begin
        sound.kept.pragmas.counter sound.kept.pragmas.ends

  -- A code that is no begin of a function adds nothing.
  other :
      (arg : ℕ) (t : Tracer)
      → (arg == code_fun_begin) ≡ false
      → Step s t []
      → Step s t (begins s arg)
  other arg t e step =
      let no : ((arg == code_fun_begin) && s.fun_call_begin) ≡ false =
        ap (λ b. b && s.fun_call_begin) e in
      subst (Step s t) (sym (if_false ((arg == code_fun_begin) && s.fun_call_begin) _ [] no)) step

  begin-Step :
      (arg : ℕ)
      → is_writing s ≡ true
      → (arg == code_fun_begin) ≡ true
      → Step s (if s.fun_call_begin then print_delayed_ins s else s) (begins s arg)
  begin-Step arg writes e =
      if_elim (λ t. Step s t (begins s arg)) s.fun_call_begin _ s
        (λ h.
          subst (Step s (print_delayed_ins s))
            (sym (
              if_true ((arg == code_fun_begin) && s.fun_call_begin) _ [] (ap₂ (λ a b. a && b) e h)))
            (print_delayed_ins-Step s writes sound.kept (sound.delayed h)))
        (λ h.
          subst (Step s s)
            (sym (
              if_false ((arg == code_fun_begin) && s.fun_call_begin) _ []
                (ap₂ (λ a b. a && b) e h)))
            (Step-refl s sound))

  do_code-Step : (arg : ℕ) → is_writing s ≡ true → Step s (do_code s arg) (begins s arg)
  unfolding do_code
  do_code-Step arg writes =
      let p = sound.kept.priority in
      let q = sound.kept.pragmas in
      let P : Tracer → Type 0 = λ t. Step s t (begins s arg) in
      if_elim P (ltb basic_block_priority_min arg && ltb arg basic_block_priority_max) _ _
        (λ e. other arg _ (ground arith) (
          same-Step s.opened s.ignorar_print s.fun_call_end s.barrier_flag s.secao_critica
            (arg - basic_block_priority_min) s.dom_begin_list s.dom_end_counter s.dom_end_list
            (ground arith) q.begin q.counter q.ends))
        (λ e0. if_elim P (arg == code_fun_begin) _ _ (begin-Step arg writes) (λ e1. other arg _ e1 (
          if_elim (λ t. Step s t []) (arg == code_fun_end) _ _
            (λ e. modes-Step s.opened s.ignorar_print true s.barrier_flag s.secao_critica)
            (λ e2.
              if_elim (λ t. Step s t []) (ltb min_dom_begin arg && ltb arg max_dom_begin) _ _
                (λ e.
                  same-Step s.opened s.ignorar_print s.fun_call_end s.barrier_flag s.secao_critica
                    s.basic_block_priority (arg - min_dom_begin) s.dom_end_counter s.dom_end_list p
                    (ground arith) q.counter q.ends)
                (λ e3.
                  if_elim (λ t. Step s t []) (ltb min_dom_end arg && ltb arg max_dom_end) _ _
                    (λ e.
                      same-Step s.opened s.ignorar_print s.fun_call_end s.barrier_flag
                        s.secao_critica s.basic_block_priority s.dom_begin_list
                        ((s.dom_end_counter + 1) % 256)
                        (update s.dom_end_list s.dom_end_counter (arg - min_dom_end)) p q.begin
                        (omega arith)
                        (push-AllFit s.dom_end_list s.dom_end_counter (arg - min_dom_end)
                          (omega (arith, q.counter)) q.ends (ground arith)))
                    (λ e. Step-refl s sound))))))

  ignore-Step :
      (arg secao : ℕ)
      → (arg == code_fun_begin) ≡ false
      → Step s (record s { secao_critica = secao }) (pragma_adds s arg)
  ignore-Step arg secao e =
      let no : ((s.ignorar_print && is_writing s) && ((arg == code_fun_begin) && s.fun_call_begin))
          ≡ false =
        ground arith in
      subst (Step s (record s { secao_critica = secao }))
        (sym (
          if_false
            ((s.ignorar_print && is_writing s) && ((arg == code_fun_begin) && s.fun_call_begin)) _
            [] no))
        (modes-Step s.opened s.ignorar_print s.fun_call_end s.barrier_flag secao)

  unread-Step : (arg : ℕ) → (s.ignorar_print && is_writing s) ≡ false → Step s s (pragma_adds s arg)
  unread-Step arg e =
      let no : ((s.ignorar_print && is_writing s) && ((arg == code_fun_begin) && s.fun_call_begin))
          ≡ false =
        ground arith in
      subst (Step s s)
        (sym (
          if_false
            ((s.ignorar_print && is_writing s) && ((arg == code_fun_begin) && s.fun_call_begin)) _
            [] no))
        (Step-refl s sound)

  read-Step :
      (arg : ℕ)
      → (s.ignorar_print && is_writing s) ≡ true
      → Step s (do_code s arg) (pragma_adds s arg)
  read-Step arg e =
      subst (Step s (do_code s arg))
        (ap
          (λ b.
            if b && ((arg == code_fun_begin) && s.fun_call_begin)
            then recorded (prepared s) (stored s) ∷ []
            else [])
          (sym e))
        (do_code-Step arg (ground arith))

  pub dopragma-Step : (arg : ℕ) → Step s (dopragma s arg) (pragma_adds s arg)
  unfolding dopragma mutex_lock mutex_unlock
  dopragma-Step arg =
      let P : Tracer → Type 0 = λ t. Step s t (pragma_adds s arg) in
      if_elim P (s.ignorar_print && s.opened) _ _
        (λ on.
          if_elim P (arg == code_ignore_begin) _ _ (λ e. ignore-Step arg _ (ground arith))
            (λ e0.
              if_elim P (arg == code_ignore_end) _ _ (λ e. ignore-Step arg _ (ground arith))
                (λ e1.
                  if_elim P (s.secao_critica == 0) _ _ (λ e. read-Step arg (ground arith))
                    (λ e. unread-Step arg (ground arith)))))
        (λ off. unread-Step arg (ground arith))
