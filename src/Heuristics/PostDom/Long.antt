-- ===== src/Heuristics/PostDom/Long.antt =====
-- PostDom_Long.cpp: the stack of PostDom.hpp beside the queue of Long.cpp, which chooses among all
-- threads. The loop is the one of Long.cpp.
use mmt_sync.Base.{
  ℕ, zero, suc, ◌<◌, ◌≡◌, refl, sym, ap, subst, ◌∙◌, List, Bool, true, false, not, ◌&&◌, ◌||◌, ltb,
  leb, ◌==◌, if◌then◌else◌, Option, none, some, Result, ok, err, ◌>>=◌, OnOk, OnOk-bind, OnOk-map,
  OnOk-intro, OnOk-both, out_of_bounds, no_thread_chosen, arith, Option-cases, inl, inr, if_elim,
}
use mmt_sync.Threads.{Thread}
use mmt_sync.Heuristics.Interface.{
  Threads, Heuristic, Chooses, Kept-Chooses, IsHeuristic, activate, set_active, shares,
  shares-ignore,
}
use mmt_sync.Heuristics.LongMin.{inside_block}
use mmt_sync.Heuristics.LongQueue.{
  Queue, long, schedule, run_group, group, requeue, first_of, is_found, or_again,
}
use mmt_sync.Heuristics.First.{first_of-some}
use mmt_sync.Heuristics.Laws.{ChoosesFrom, lawful}
use mmt_sync.Heuristics.Queued.{LongHeuristic-IsHeuristic}
use mmt_sync.Heuristics.PostDom.Defs.{
  Block, Stack, find_ends, begin_block, enter_function, leave_function,
}
use mmt_sync.Heuristics.PostDom.Blocks.{AllFit, find_ends-AllFit, begin_block-AllFit}

-- A pragma begins a basic block: `t[i].basic_block = true;`
abbrev pub mark_ends : Threads → Threads
mark_ends t i = record (t i) {
  basic_block =
      if ((t i).is_active && not (t i).ignore)
        && (ltb 0 (t i).pragma_end_counter || ltb 0 (t i).pragma_begin_list)
      then true
      else (t i).basic_block;
}

-- What follows the loop; here the call comes before the return.
unfoldable pub after_loop :
    ℕ → List Block → (ℕ → ℕ) → Threads × Queue → Result (Threads × (Stack × Queue))
unfolding begin_block leave_function enter_function activate
after_loop n bs level (t, q) = elim q.ref [
  | none ↦ err no_thread_chosen
  | some ref ↦
      let u = activate t (some ref) in
      let (cs, began) = begin_block n u ref bs level in
      ok (
        u,
        (
          record {
            blocks = cs;
            function_level = leave_function u ref (enter_function u ref began);
            ref = some ref;
          },
          q,
        ),
      )
]

unfoldable pub post_dom_long : ℕ → ℕ → Threads → Stack × Queue → Result (Threads × (Stack × Queue))
unfolding find_ends long after_loop
post_dom_long fuel n t (st, q) =
    let (bs, level) = find_ends n t st.blocks st.function_level in
    long fuel n (mark_ends t) q >>= after_loop n bs level

abbrev pub PostDomLong : ℕ → Heuristic (Stack × Queue)
PostDomLong fuel = record {
  choose_threads = λ n t p. post_dom_long fuel n t p;
  register_instruction = λ insn tid sequence p. p;
}

after_loop-Chooses :
    (n : ℕ) (bs : List Block) (level : ℕ → ℕ) (t u : Threads) (q : Queue)
    → Chooses n (mark_ends t) u
    → OnOk (ChoosesFrom n t) (after_loop n bs level (u, q))
unfolding after_loop activate
after_loop-Chooses n bs level t u q h = elim (Option-cases q.ref) [
  | inl e ↦ rw e tt
  | inr (r, e) ↦ rw e (
      Kept-Chooses n t (activate u (some r))
        (λ i. ap (λ (w : Thread). record w { is_active = shares u (some r) i }) (h.kept i))
        (λ i lt a. shares-ignore u (some r) i a))
]

-- Where PostDom_Long makes a choice, with any fuel for its loop, it changes nothing of a thread but
-- `is_active` and `basic_block`, and activates nobody below n who is ignored, in any state.
pub PostDomLong-IsHeuristic : (fuel n : ℕ) → IsHeuristic n (PostDomLong fuel)
unfolding post_dom_long
PostDomLong-IsHeuristic fuel n = lawful n (PostDomLong fuel) λ t p.
    let ends = find_ends n t p.0.blocks p.0.function_level in
    let u = mark_ends t in
    OnOk-bind (ChoosesFrom n u) (ChoosesFrom n t) (long fuel n u p.1) (after_loop n ends.0 ends.1)
      (OnOk-intro (ChoosesFrom n u) (long fuel n u p.1)
        (λ q e. (LongHeuristic-IsHeuristic fuel n).sound u q.0 p.1 q.1 e))
      (λ q h. after_loop-Chooses n ends.0 ends.1 t q.0 q.1 h)

-- The reference thread of the queue.
abbrev pub Below : ℕ → Option ℕ → Type 0
Below n none = Unit {0}
Below n (some r) = r < n

-- After the loop the reference thread can run.
abbrev Led : ℕ → Threads → Option ℕ → Type 0
Led n t none = Unit {0}
Led n t (some r) = (r < n) × ((t r).ignore ≡ false)

group-Led : (n : ℕ) (t : Threads) (j : ℕ) (o : Option ℕ) → first_of n (group t j) ≡ o → Led n t o
group-Led n t j none e = tt
group-Led n t j (some r) e =
    let (lt, in_group) = first_of-some n r (group t j) e in (lt, ground arith)

run_group-Led :
    (n : ℕ) (t : Threads) (s : Queue) (j : ℕ) → OnOk (λ p. Led n t p.1.ref) (run_group n t s j)
unfolding run_group
run_group-Led n t s j =
    if_elim (OnOk (λ p. Led n t p.1.ref))
      ((s.fhb.tamanho_fhb == 0) && is_found (first_of n (group t j))) (err out_of_bounds) _
      (λ e. tt) (λ e. group-Led n t j (first_of n (group t j)) refl)

or_again-Led :
    (n : ℕ) (t : Threads) (again : Result (Threads × Queue)) (run : ℕ → Result (Threads × Queue))
    (o : Option ℕ)
    → OnOk (λ p. Led n t p.1.ref) again
    → ((j : ℕ) → OnOk (λ p. Led n t p.1.ref) (run j))
    → OnOk (λ p. Led n t p.1.ref) (or_again again run o)
or_again-Led n t again run none h k = h
or_again-Led n t again run (some j) h k = k j

-- Who is ignored does not depend on who is active.
cleared-Led :
    (n : ℕ) (t : Threads) (active : ℕ → Bool) (o : Option ℕ)
    → Led n (set_active t active) o
    → Led n t o
cleared-Led n t active none h = tt
cleared-Led n t active (some r) h = h

schedule-Led :
    (fuel n : ℕ) (t : Threads) (s : Queue) → OnOk (λ p. Led n t p.1.ref) (schedule fuel n t s)
unfolding schedule
schedule-Led zero n t s = tt
schedule-Led (suc fuel) n t s =
    let queued = requeue n t s in
    let u = set_active t (λ _. false) in
    let next = record queued { nafila = 0; ref = none } in
    let clear : (r : Result (Threads × Queue))
        → OnOk (λ p. Led n u p.1.ref) r
        → OnOk (λ p. Led n t p.1.ref) r =
      λ r h.
        OnOk-map (λ p. Led n u p.1.ref) (λ p. Led n t p.1.ref) r h
          (λ p. cleared-Led n t (λ _. false) p.1.ref) in
    or_again-Led n t (schedule fuel n u next) (run_group n u queued)
      (first_of n (λ j. leb queued.nafila j && queued.para_executar j))
      (clear (schedule fuel n u next) (schedule-Led fuel n u next))
      (λ j. clear (run_group n u queued j) (run_group-Led n u queued j))

inside-Led : (n : ℕ) (t : Threads) (o : Option ℕ) → Below n o → inside_block t o ≡ true → Led n t o
inside-Led n t none h e = tt
inside-Led n t (some r) h e = (h, ground arith)

long-Led :
    (fuel n : ℕ) (t : Threads) (s : Queue)
    → Below n s.ref
    → OnOk (λ p. Led n t p.1.ref) (long fuel n t s)
unfolding long
long-Led fuel n t s h =
    if_elim (OnOk (λ p. Led n t p.1.ref)) (inside_block t s.ref) (ok (activate t s.ref, s)) _
      (λ e. inside-Led n t s.ref h e) (λ e. schedule-Led fuel n t s)

abbrev pub KeepsFit : ℕ → Stack × Queue → Type 0
KeepsFit n p = AllFit n p.0.blocks × Below n p.1.ref

after_loop-KeepsFit :
    (n : ℕ) (bs : List Block) (level : ℕ → ℕ) (t u : Threads) (q : Queue)
    → AllFit n bs
    → Chooses n t u
    → Led n t q.ref
    → OnOk (λ p. KeepsFit n p.1) (after_loop n bs level (u, q))
unfolding after_loop activate
after_loop-KeepsFit n bs level t u q fit c led = elim (Option-cases q.ref) [
  | inl e ↦ rw e tt
  | inr (r, e) ↦
      let h : Led n t (some r) = subst (Led n t) e led in
      let awake : (u r).ignore ≡ false = c.ignore r ∙ h.1 in
      rw e (
        begin_block-AllFit n (activate u (some r)) r bs level h.0 (ground arith) fit,
        subst (Below n) (sym e) h.0,
      )
]

-- PostDom_Long, with any fuel for its loop: if the counter of every block on the stack is the number
-- of its threads below n, and that is not 0, and the reference thread is none or below n, this is
-- so again after a choice that is made.
pub post_dom_long-KeepsFit :
    (fuel n : ℕ) (t : Threads) (p : Stack × Queue)
    → KeepsFit n p
    → OnOk (λ q. KeepsFit n q.1) (post_dom_long fuel n t p)
unfolding post_dom_long
post_dom_long-KeepsFit fuel n t p (fit, below) =
    let ends = find_ends n t p.0.blocks p.0.function_level in
    let u = mark_ends t in
    let chooses =
      OnOk-intro (ChoosesFrom n u) (long fuel n u p.1)
        (λ q e. (LongHeuristic-IsHeuristic fuel n).sound u q.0 p.1 q.1 e) in
    OnOk-bind (λ q. ChoosesFrom n u q × Led n u q.1.ref) (λ q. KeepsFit n q.1) (long fuel n u p.1)
      (after_loop n ends.0 ends.1)
      (OnOk-both (ChoosesFrom n u) (λ q. Led n u q.1.ref) (long fuel n u p.1) chooses
        (long-Led fuel n u p.1 below))
      (λ q h.
        after_loop-KeepsFit n ends.0 ends.1 u q.0 q.1
          (find_ends-AllFit n t p.0.blocks p.0.function_level fit) h.0 h.1)
