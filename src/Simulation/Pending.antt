-- ===== src/Simulation/Pending.antt =====
-- What a thread of Execute/src/Simulation.cpp has still to execute.
use mmt_sync.Base.{ℕ, ◌≡◌, refl, ◌∙◌, List, [], ◌++◌, Bool, true, false, update, update_all}
use mmt_sync.Trace.{File, Instruction}
use mmt_sync.Trace.Decode.{decode}
use mmt_sync.Threads.{Thread}
use mmt_sync.Heuristics.Interface.{Threads}

abbrev pub unread : Bool → File → List Instruction
unread true f = decode f
unread false f = []

-- The queue, then the records that are still in the file.
abbrev pub pending : Thread → List Instruction
pending t = t.instruction_queue ++ unread t.not_eof t.thread_arq

-- An empty queue means that the file has ended.
abbrev pub IsFilled : Thread → Type 0
IsFilled t = t.instruction_queue ≡ [] → t.not_eof ≡ false

pub record Kept (t u : Thread) : Type 0 where
  pub pending_eq : pending u ≡ pending t
  pub finished_eq : u.finished ≡ t.finished
  pub active_eq : u.is_active ≡ t.is_active
  pub barrier_eq : u.barrier ≡ t.barrier
  pub ignore_eq : u.ignore ≡ t.ignore

pub Kept-refl : (t : Thread) → Kept t t
Kept-refl t = record {
  pending_eq = refl;
  finished_eq = refl;
  active_eq = refl;
  barrier_eq = refl;
  ignore_eq = refl;
}

pub Kept-trans : {t u v : Thread} → Kept t u → Kept u v → Kept t v
Kept-trans a b = record {
  pending_eq = b.pending_eq ∙ a.pending_eq;
  finished_eq = b.finished_eq ∙ a.finished_eq;
  active_eq = b.active_eq ∙ a.active_eq;
  barrier_eq = b.barrier_eq ∙ a.barrier_eq;
  ignore_eq = b.ignore_eq ∙ a.ignore_eq;
}

pub Kept-update :
    (t : Threads) (i : ℕ) (v : Thread) → Kept (t i) v → (k : ℕ) → Kept (t k) (update t i v k)
Kept-update t i v h = update_all (λ k u. Kept (t k) u) t i v h (λ k ne. Kept-refl (t k))
