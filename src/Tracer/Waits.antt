-- ===== src/Tracer/Waits.antt =====
-- Tools/insList.cpp: the pcs that the calls of the tool add to the file, and the one that waits.
use mathlib.Core.List.{append_assoc, append-nil, map-append}
use mmt_sync.Base.{
  ℕ, ◌+◌, ◌%◌, ◌≡◌, refl, sym, ap, ◌∙◌, subst, List, [], ◌∷◌, ◌++◌, map, true, false, ◌&&◌, ltb,
  ◌==◌, if◌then◌else◌, if_elim, if_true, if_false, if_elim₂, ap₂, Bool-cases, inl, inr, length,
  arith,
}
use mmt_sync.Trace.{Instruction}
use mmt_sync.Tracer.Defs.{
  Tracer, is_writing, is_printing, is_delayed, proc_ins, print_delayed_ins, flush, delay,
}
use mmt_sync.Tracer.Events.{
  do_code, dopragma, mutex_lock, mutex_unlock, code_fun_begin, code_fun_end, code_ignore_begin,
  code_ignore_end, basic_block_priority_min, basic_block_priority_max, min_dom_begin, max_dom_begin,
  min_dom_end, max_dom_end,
}
use mmt_sync.Tracer.Instrument.{regdata_size, Register, Knobs, Values, run_call, run_calls}
use mmt_sync.Tracer.Entry.{recorded}
use mmt_sync.Tracer.Sound.{stored, prepared}
use mmt_sync.Tracer.Flush.{pending}
use mmt_sync.Tracer.Executes.{all_calls, called, doprint_all}
use mmt_sync.Tracer.Calls.{doprint-flush, printing-writes}
use mmt_sync.Tracer.Pragmas.{begins, pragma_adds}
use mmt_sync.Tracer.Modes.{
  Mode, mode, waiting, Goes, rest_calls-Goes, proc_ins-mode, proc_ins-waiting,
  print_delayed_ins-mode, flush-mode,
}

abbrev pub pcs : List Instruction → List ℕ
pcs l = map (λ i. i.pc) l

abbrev pub mode_pragma : Mode → ℕ → Mode
mode_pragma m arg =
    if m.off && m.opened
    then (if arg == code_ignore_begin
        then record m { depth = (m.depth + 1) % 256 }
        else if arg == code_ignore_end
        then record m { depth = (m.depth + 255) % 256 }
        else m)
    else m

-- A code that is no begin of a function leaves both.
do_code-Goes : (s : Tracer) (arg : ℕ) → (arg == code_fun_begin) ≡ false → Goes s (do_code s arg)
unfolding do_code
do_code-Goes s arg other = rw other (
    if_elim (Goes s) (ltb basic_block_priority_min arg && ltb arg basic_block_priority_max) _ _
      (λ e. record { mode_eq = refl; waiting_eq = refl })
      (λ e0.
        if_elim (Goes s) (arg == code_fun_end) _ _
          (λ e. record { mode_eq = refl; waiting_eq = refl })
          (λ e1.
            if_elim (Goes s) (ltb min_dom_begin arg && ltb arg max_dom_begin) _ _
              (λ e. record { mode_eq = refl; waiting_eq = refl })
              (λ e2.
                if_elim (Goes s) (ltb min_dom_end arg && ltb arg max_dom_end) _ _
                  (λ e. record { mode_eq = refl; waiting_eq = refl })
                  (λ e. record { mode_eq = refl; waiting_eq = refl })))))

late_begin :
    (arg : ℕ)
    → (arg == code_fun_begin) ≡ true
    → (ltb basic_block_priority_min arg && ltb arg basic_block_priority_max) ≡ false
late_begin arg e = ground arith

do_code-mode : (s : Tracer) (arg : ℕ) → mode (do_code s arg) ≡ mode s
unfolding do_code
do_code-mode s arg = elim (Bool-cases (arg == code_fun_begin)) [
  | inl e ↦
      rw (late_begin arg e, e)
        (if_elim (λ t. mode t ≡ mode s) s.fun_call_begin (print_delayed_ins s) s
          (λ c. print_delayed_ins-mode s) (λ c. refl))
  | inr e ↦ (do_code-Goes s arg e).mode_eq
]

print_delayed_ins-waiting : (s : Tracer) → is_writing s ≡ true → waiting (print_delayed_ins s) ≡ []
unfolding print_delayed_ins
print_delayed_ins-waiting s w =
    let call = s.stored_delayed_call in
    proc_ins-waiting (record s { basic_block_priority = call.basic_block_priority }) call.pc call.sp
      call.flags call.memops call.regops w

-- The call has taken the tool to a mode and added the pcs l to the file.
pub record Waits (s : Tracer) (m : Mode) (l : List ℕ) (t : Tracer) : Type 0 where
  pub mode_eq : mode t ≡ m
  pub waits_eq : l ++ waiting t ≡ waiting s

begins-Waits :
    (s : Tracer)
    → is_writing s ≡ true
    → Waits s
        (mode s)
        (pcs (if s.fun_call_begin then recorded (prepared s) (stored s) ∷ [] else []))
        (if s.fun_call_begin then print_delayed_ins s else s)
begins-Waits s w =
    if_elim₂ (λ t l. Waits s (mode s) (pcs l) t) s.fun_call_begin _ _ _ _
      (λ c. record {
        mode_eq = print_delayed_ins-mode s;
        waits_eq =
            ap (λ l. s.stored_delayed_call.pc ∷ l) (print_delayed_ins-waiting s w)
            ∙ sym (if_true s.fun_call_begin (s.stored_delayed_call.pc ∷ []) [] c);
      })
      (λ c. record { mode_eq = refl; waits_eq = refl })

do_code-Waits :
    (s : Tracer) (arg : ℕ)
    → is_writing s ≡ true
    → Waits s (mode s) (pcs (begins s arg)) (do_code s arg)
unfolding do_code
do_code-Waits s arg w = elim (Bool-cases (arg == code_fun_begin)) [
  | inl e ↦ rw (late_begin arg e, e) (begins-Waits s w)
  | inr e ↦
      let goes = do_code-Goes s arg e in
      record {
        mode_eq = goes.mode_eq;
        waits_eq =
            ap
              (λ b.
                pcs (if b && s.fun_call_begin then recorded (prepared s) (stored s) ∷ [] else [])
                ++ waiting (do_code s arg))
              e
            ∙ goes.waiting_eq;
      }
]

adds_none :
    (s : Tracer) (arg : ℕ)
    → ((s.ignorar_print && is_writing s) && ((arg == code_fun_begin) && s.fun_call_begin)) ≡ false
    → pcs (pragma_adds s arg) ≡ []
adds_none s arg e = ap pcs (
    if_false ((s.ignorar_print && is_writing s) && ((arg == code_fun_begin) && s.fun_call_begin)) _
      [] e)

pub dopragma-Waits :
    (s : Tracer) (arg : ℕ)
    → Waits s (mode_pragma (mode s) arg) (pcs (pragma_adds s arg)) (dopragma s arg)
unfolding dopragma mutex_lock mutex_unlock
dopragma-Waits s arg =
    let P : Tracer → Mode → Type 0 = λ t m. Waits s m (pcs (pragma_adds s arg)) t in
    if_elim₂ P (s.ignorar_print && s.opened) _ _ _ _
      (λ on.
        if_elim₂ P (arg == code_ignore_begin) _ _ _ _
          (λ b. record {
            mode_eq = refl;
            waits_eq = ap (λ l. l ++ waiting s) (adds_none s arg (ground arith));
          })
          (λ e0.
            if_elim₂ P (arg == code_ignore_end) _ _ _ _
              (λ b. record {
                mode_eq = refl;
                waits_eq = ap (λ l. l ++ waiting s) (adds_none s arg (ground arith));
              })
              (λ e1.
                if_elim (λ t. P t (mode s)) (s.secao_critica == 0) _ s
                  (λ z.
                    let w : is_writing s ≡ true = ground arith in
                    let both : (s.ignorar_print && is_writing s) ≡ true = ground arith in
                    let code = do_code-Waits s arg w in
                    record {
                      mode_eq = code.mode_eq;
                      waits_eq =
                          ap
                            (λ b.
                              pcs (
                                if b && ((arg == code_fun_begin) && s.fun_call_begin)
                                then recorded (prepared s) (stored s) ∷ []
                                else [])
                              ++ waiting (do_code s arg))
                            both
                          ∙ code.waits_eq;
                    })
                  (λ z. record {
                    mode_eq = refl;
                    waits_eq = ap (λ l. l ++ waiting s) (adds_none s arg (ground arith));
                  }))))
      (λ off. record {
        mode_eq = refl;
        waits_eq = ap (λ l. l ++ waiting s) (adds_none s arg (ground arith));
      })

-- The same where the pcs of `shown` are new: they go to the file or wait.
pub record Shows (s : Tracer) (m : Mode) (l shown : List ℕ) (t : Tracer) : Type 0 where
  pub mode_eq : mode t ≡ m
  pub shows_eq : l ++ waiting t ≡ waiting s ++ shown

pub Waits-Shows :
    (s : Tracer) (m : Mode) (l : List ℕ) (t : Tracer) → Waits s m l t → Shows s m l [] t
Waits-Shows s m l t h = record {
  mode_eq = h.mode_eq;
  shows_eq = h.waits_eq ∙ sym (append-nil (waiting s));
}

pub pcs-append : (xs ys : List Instruction) → pcs (xs ++ ys) ≡ pcs xs ++ pcs ys
pcs-append xs ys = map-append (λ i. i.pc) xs ys

pending-pcs : (s : Tracer) → pcs (pending s) ≡ waiting s
pending-pcs s =
    if_elim₂ (λ l m. pcs l ≡ m) s.fun_call_begin _ [] (s.stored_delayed_call.pc ∷ []) [] (λ e. refl)
      (λ e. refl)

module _ (knobs : Knobs) (tid : ℕ) (v : Values) (flags : ℕ) (ks : List ℕ) (rs : List Register)
    (s : Tracer) (on : is_printing s ≡ true) where
  called-pcs :
      pcs (called knobs tid v flags ks rs s)
      ≡ waiting s ++ (if is_delayed flags then [] else v.pc ∷ [])
  called-pcs =
      pcs-append (pending s) _
      ∙ ap₂ (λ a b. a ++ b) (pending-pcs s)
          (if_elim₂ (λ l m. pcs l ≡ m) (is_delayed flags) [] _ [] (v.pc ∷ []) (λ e. refl)
            (λ e. refl))

  flush-writing : is_writing (flush s) ≡ true
  flush-writing = ap (λ m. m.opened && (m.depth == 0)) (flush-mode s) ∙ printing-writes s on

  doprint-Shows :
      Shows s
        (mode s)
        (pcs (called knobs tid v flags ks rs s))
        (v.pc ∷ [])
        (doprint_all knobs v flags ks rs s)
  doprint-Shows =
      let memops = length ks in
      let regops = regdata_size knobs.x87_size rs in
      let u = flush s in
      subst (λ l. Shows s (mode s) l (v.pc ∷ []) (doprint_all knobs v flags ks rs s))
        (sym called-pcs)
        (subst
          (λ t.
            Shows s (mode s) (waiting s ++ (if is_delayed flags then [] else v.pc ∷ [])) (v.pc ∷ [])
              t)
          (sym (doprint-flush s v.pc v.sp flags memops regops on))
          (if_elim₂ (λ l t. Shows s (mode s) (waiting s ++ l) (v.pc ∷ []) t) (is_delayed flags) []
            (v.pc ∷ []) (delay u v.pc v.sp flags memops regops)
            (proc_ins u v.pc v.sp flags memops regops)
            (λ later. record {
              mode_eq = flush-mode s;
              shows_eq = append_assoc (waiting s) [] (v.pc ∷ []);
            })
            (λ now. record {
              mode_eq = proc_ins-mode u v.pc v.sp flags memops regops ∙ flush-mode s;
              shows_eq =
                  ap (λ l. (waiting s ++ v.pc ∷ []) ++ l)
                    (proc_ins-waiting u v.pc v.sp flags memops regops flush-writing)
                  ∙ append-nil (waiting s ++ v.pc ∷ []);
            })))

  pub all_calls-Shows :
      Shows s
        (mode s)
        (pcs (called knobs tid v flags ks rs s))
        (v.pc ∷ [])
        (run_calls knobs tid v s (all_calls knobs flags ks rs))
  unfolding run_calls run_call
  all_calls-Shows =
      let first = doprint-Shows in
      let rest = rest_calls-Goes knobs tid v (doprint_all knobs v flags ks rs s) ks rs in
      record {
        mode_eq = rest.mode_eq ∙ first.mode_eq;
        shows_eq =
            ap (λ l. pcs (called knobs tid v flags ks rs s) ++ l) rest.waiting_eq ∙ first.shows_eq;
      }
