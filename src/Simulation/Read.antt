-- ===== src/Simulation/Read.antt =====
-- One round of `read_instructions` for one thread, and the loop over all of them.
use mmt_sync.Base.{
  ℕ, ◌+◌, ◌≡◌, refl, [], ◌∷◌, Bool, true, false, not, ◌&&◌, ◌||◌, inl, inr, arith, Bool-cases, ◌==◌,
  if◌then◌else◌,
}
use mmt_sync.Trace.{Instruction}
use mmt_sync.Threads.{Thread}
use mmt_sync.Heuristics.Interface.{Threads}
use mmt_sync.Simulation.Defs.{Simulator, release_barrier, arrive}
use mmt_sync.Simulation.Pending.{pending, IsFilled}

-- `!threads[i].finished && threads[i].is_active`: the thread takes part in the next read.
abbrev pub runs : Thread → Bool
runs t = not t.finished && t.is_active

-- `ignore` says what the heuristics take it to say.
abbrev pub IsMarked : Thread → Type 0
IsMarked t = t.ignore ≡ (t.finished || t.barrier)

-- What a read makes of a thread that takes part: its next instruction, or its end.
pub data Advanced (t u : Thread) : Type 0 where
  ends : pending t ≡ [] → pending u ≡ [] → u.finished ≡ true → Advanced t u
  takes :
      (insn : Instruction)
      → pending t ≡ insn ∷ pending u
      → u.finished ≡ false
      → u.pc ≡ insn.pc
      → Advanced t u

-- The fields of a thread that reads of the other threads leave alone, by and large: a barrier that
-- opens clears `barrier` and sets `ignore` anew.
pub record Untouched (t u : Thread) : Type 0 where
  pub pending_eq : pending u ≡ pending t
  pub finished_eq : u.finished ≡ t.finished
  pub active_eq : u.is_active ≡ t.is_active
  pub pc_eq : u.pc ≡ t.pc
  pub filled : IsFilled t → IsFilled u
  pub marked : IsMarked t → IsMarked u

pub Untouched-refl : (t : Thread) → Untouched t t
Untouched-refl t = record {
  pending_eq = refl;
  finished_eq = refl;
  active_eq = refl;
  pc_eq = refl;
  filled = λ h. h;
  marked = λ h. h;
}

Untouched-release : (t : Threads) (k : ℕ) → Untouched (t k) (release_barrier t k)
unfolding release_barrier
Untouched-release t k = record {
  pending_eq = refl;
  finished_eq = refl;
  active_eq = refl;
  pc_eq = refl;
  filled = λ h. h;
  marked = λ h. ground arith;
}

module _ {H : Type 0} where
  pub arrive-Untouched :
      (n : ℕ) (s : Simulator H) (k : ℕ) → Untouched (s.threads k) ((arrive n s).threads k)
  unfolding arrive
  arrive-Untouched n s k = elim (Bool-cases (s.waiting_in_barrier + 1 == n)) [
    | inl last ↦ rw last (Untouched-release s.threads k)
    | inr more ↦ rw more (Untouched-refl (s.threads k))
  ]

  pub arrive-finished : (n : ℕ) (s : Simulator H) → (arrive n s).finished ≡ s.finished
  unfolding arrive
  arrive-finished n s = ground arith

  pub Untouched-if :
      (b : Bool) (n : ℕ) (s : Simulator H) (k : ℕ)
      → Untouched (s.threads k) ((if b then arrive n s else s).threads k)
  Untouched-if true n s k = arrive-Untouched n s k
  Untouched-if false n s k = Untouched-refl (s.threads k)
