-- ===== src/Heuristics/Interface.antt =====
-- `class Heuristic` (Execute/src/Heuristic.hpp) with a state `H` for the fields of the subclass, and
-- what the simulator relies on.
use mmt_sync.Base.{
  Bool, Option, none, some, refl, sym, ap, ap₂, ◌∙◌, arith, ℕ, ◌<◌, ◌≡◌, true, false, not, ◌&&◌,
  ◌==◌, Result, ok,
}
use mmt_sync.Trace.{Instruction}
use mmt_sync.Threads.{Thread}

abbrev pub Threads : Type 0
Threads = ℕ → Thread

-- The threads are the indices below the first argument. An exception leaves no state: `main` ends.
pub record Heuristic (H : Type 0) : Type 0 where
  pub choose_threads : ℕ → Threads → H → Result (Threads × H)
  pub register_instruction : Instruction → ℕ → ℕ → H → H

-- `is_active` written for every thread.
abbrev pub set_active : Threads → (ℕ → Bool) → Threads
set_active t active i = record (t i) { is_active = active i }

-- `!t[i].ignore && t[i].pc == t[ref].pc`: the threads that share the instruction of `ref`. Where
-- `ref` is -1, `none`, the callers have found every thread ignored, and `t[ref]` is not read.
abbrev pub shares : Threads → Option ℕ → ℕ → Bool
shares t none i = false
shares t (some ref) i = not (t i).ignore && ((t i).pc == (t ref).pc)

-- `t[i].is_active = !t[i].ignore && t[i].pc == t[ref].pc;` for every i.
unfoldable pub activate : Threads → Option ℕ → Threads
activate t ref = set_active t (shares t ref)

-- Of a thread nothing has changed but `is_active`.
abbrev pub OnlyActive : Threads → Threads → Type 0
OnlyActive before after = (i : ℕ) → after i ≡ record (before i) { is_active = (after i).is_active }

-- Of a thread nothing has changed but `is_active`, `bb_priority` and `basic_block`.
abbrev pub Kept : Threads → Threads → Type 0
Kept before after =
    (i : ℕ)
    → after i ≡ record (before i) {
      is_active = (after i).is_active;
      bb_priority = (after i).bb_priority;
      basic_block = (after i).basic_block;
    }

pub OnlyActive-Kept : (t u : Threads) → OnlyActive t u → Kept t u
OnlyActive-Kept t u only i =
    let same : (u i).bb_priority ≡ (t i).bb_priority = ap (λ w. w.bb_priority) (only i) in
    let block : (u i).basic_block ≡ (t i).basic_block = ap (λ w. w.basic_block) (only i) in
    only i
    ∙ ap₂ (λ p b. record (t i) { is_active = (u i).is_active; bb_priority = p; basic_block = b })
        (sym same) (sym block)

-- A heuristic chooses by `is_active` and may write `bb_priority` and `basic_block`; all else of a
-- thread stays, and nobody who is ignored is chosen. The fields after `kept` are those that the
-- simulator reads.
pub record Chooses (n : ℕ) (before after : Threads) : Type 0 where
  pub kept : Kept before after
  pub queue : (i : ℕ) → (after i).instruction_queue ≡ (before i).instruction_queue
  pub file : (i : ℕ) → (after i).thread_arq ≡ (before i).thread_arq
  pub not_eof : (i : ℕ) → (after i).not_eof ≡ (before i).not_eof
  pub finished : (i : ℕ) → (after i).finished ≡ (before i).finished
  pub barrier : (i : ℕ) → (after i).barrier ≡ (before i).barrier
  pub ignore : (i : ℕ) → (after i).ignore ≡ (before i).ignore
  pub pc : (i : ℕ) → (after i).pc ≡ (before i).pc
  pub running : (i : ℕ) → i < n → (after i).is_active ≡ true → (after i).ignore ≡ false

-- The contract: whatever the state, a choice that is made is such a choice.
pub record IsHeuristic {H : Type 0} (n : ℕ) (h : Heuristic H) : Type 0 where
  pub sound : (t t' : Threads) (s s' : H) → h.choose_threads n t s ≡ ok (t', s') → Chooses n t t'

pub Kept-Chooses :
    (n : ℕ) (t u : Threads)
    → Kept t u
    → ((i : ℕ) → i < n → (u i).is_active ≡ true → (u i).ignore ≡ false)
    → Chooses n t u
Kept-Chooses n t u k h = record {
  kept = k;
  queue = λ i. ap (λ w. w.instruction_queue) (k i);
  file = λ i. ap (λ w. w.thread_arq) (k i);
  not_eof = λ i. ap (λ w. w.not_eof) (k i);
  finished = λ i. ap (λ w. w.finished) (k i);
  barrier = λ i. ap (λ w. w.barrier) (k i);
  ignore = λ i. ap (λ w. w.ignore) (k i);
  pc = λ i. ap (λ w. w.pc) (k i);
  running = h;
}

pub set_active-OnlyActive : (t : Threads) (active : ℕ → Bool) → OnlyActive t (set_active t active)
set_active-OnlyActive t active i = refl

pub set_active-Chooses :
    (n : ℕ) (t : Threads) (active : ℕ → Bool)
    → ((i : ℕ) → i < n → active i ≡ true → (t i).ignore ≡ false)
    → Chooses n t (set_active t active)
set_active-Chooses n t active h = Kept-Chooses n t (set_active t active) (λ i. refl) h

pub shares-ignore :
    (t : Threads) (ref : Option ℕ) (i : ℕ) → shares t ref i ≡ true → (t i).ignore ≡ false
shares-ignore t none i e = cc
shares-ignore t (some ref) i e = ground arith

pub activate-Chooses : (n : ℕ) (t : Threads) (ref : Option ℕ) → Chooses n t (activate t ref)
unfolding activate
activate-Chooses n t ref = set_active-Chooses n t (shares t ref) (λ i lt e. shares-ignore t ref i e)
