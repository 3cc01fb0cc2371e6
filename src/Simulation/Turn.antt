-- ===== src/Simulation/Turn.antt =====
-- One round of the loop of `read_instructions`.
use mmt_sync.Base.{
  update_ne, ℕ, ◌+◌, ◌≡◌, ◌≢◌, ◌∙◌, refl, sym, subst, ap, List, [], ◌∷◌, Bool, true, false, ◌||◌,
  inl, inr, arith, Bool-cases, ==_refl, update_self,
}
use mmt_sync.Trace.{Instruction}
use mmt_sync.Threads.{Thread, fetch}
use mmt_sync.Simulation.Defs.{Simulator, advance, set_ignore, read_thread}
use mmt_sync.Simulation.Pending.{pending, IsFilled}
use mmt_sync.Simulation.Read.{
  runs, IsMarked, Advanced, ends, takes, Untouched, Untouched-refl, arrive-finished, Untouched-if,
}

-- What one round does to the thread that it reads.
pub record Turn (t u : Thread) : Type 0 where
  pub advanced : Advanced t u
  pub active_eq : u.is_active ≡ t.is_active
  pub marked : IsMarked u

abbrev pub flag : Bool → ℕ
flag true = 1
flag false = 0

-- The instruction at the head of the queue, seen through a barrier that may open.
Turn-take :
    (t f v : Thread) (insn : Instruction)
    → pending t ≡ insn ∷ pending f
    → f.finished ≡ false
    → f.is_active ≡ t.is_active
    → f.pc ≡ insn.pc
    → Untouched f v
    → Turn t (record v { ignore = v.finished || v.barrier })
Turn-take t f v insn p fin act at u = record {
  advanced =
      takes insn (p ∙ ap (λ r. insn ∷ r) (sym u.pending_eq)) (u.finished_eq ∙ fin) (u.pc_eq ∙ at);
  active_eq = u.active_eq ∙ act;
  marked = refl;
}

-- What happens to a thread after its turn leaves the turn standing.
pub Turn-Untouched : {t u v : Thread} → Turn t u → Untouched u v → Turn t v
Turn-Untouched {t} {u} {v} r w = record {
  advanced = go r.advanced;
  active_eq = w.active_eq ∙ r.active_eq;
  marked = w.marked r.marked;
}
  where
    go : Advanced t u → Advanced t v
    go (ends p q f) = ends p (w.pending_eq ∙ q) (w.finished_eq ∙ f)
    go (takes insn p f a) =
        takes insn (p ∙ ap (λ l. insn ∷ l) (sym w.pending_eq)) (w.finished_eq ∙ f) (w.pc_eq ∙ a)

module _ {H : Type 0} where
  set_ignore_others :
      (i : ℕ) (s : Simulator H) (k : ℕ) → k ≢ i → (set_ignore i s).threads k ≡ s.threads k
  unfolding set_ignore
  set_ignore_others i s k ne = ground arith

  set_ignore_self :
      (i : ℕ) (s : Simulator H)
      → (set_ignore i s).threads i
        ≡ record (s.threads i) { ignore = (s.threads i).finished || (s.threads i).barrier }
  unfolding set_ignore
  set_ignore_self i s = update_self s.threads i _

  -- The end of a thread whose queue is empty.
  Turn-end :
      (n i : ℕ) (s : Simulator H)
      → (s.threads i).instruction_queue ≡ []
      → (s.threads i).not_eof ≡ false
      → Turn (s.threads i) ((set_ignore i (advance n i [] s)).threads i)
  unfolding advance
  Turn-end n i s q e =
      rw (set_ignore_self i (advance n i [] s), ==_refl i)
        (record { advanced = ends (rw (q, e)) (rw (q, e)) refl; active_eq = refl; marked = refl })

  Turn-fetch :
      (n i : ℕ) (s : Simulator H) (insn : Instruction) (rest : List Instruction)
      → (s.threads i).instruction_queue ≡ insn ∷ rest
      → (s.threads i).finished ≡ false
      → Turn (s.threads i) ((set_ignore i (advance n i (insn ∷ rest) s)).threads i)
  unfolding advance fetch
  Turn-fetch n i s insn rest q fin = rw (set_ignore_self i (advance n i (insn ∷ rest) s)) (
      Turn-take (s.threads i) (record (fetch insn (s.threads i)) { instruction_queue = rest }) _
        insn (rw q) fin refl refl
        (subst (λ f. Untouched f ((advance n i (insn ∷ rest) s).threads i))
          (update_self s.threads i _) (Untouched-if insn.barrier n _ i)))

  advance_others :
      (n i : ℕ) (q : List Instruction) (s : Simulator H) (k : ℕ)
      → k ≢ i
      → Untouched (s.threads k) ((advance n i q s).threads k)
  unfolding advance
  advance_others n i [] s k ne = rw (update_ne s.threads i _ k ne) (Untouched-refl (s.threads k))
  advance_others n i (insn ∷ rest) s k ne =
      subst (λ f. Untouched f ((advance n i (insn ∷ rest) s).threads k))
        (update_ne s.threads i _ k ne) (Untouched-if insn.barrier n _ k)

  -- The counter `finished` moves with the end of a thread.
  set_ignore-finished : (i : ℕ) (s : Simulator H) → (set_ignore i s).finished ≡ s.finished
  unfolding set_ignore
  set_ignore-finished i s = refl

  advance-finished :
      (n i : ℕ) (insn : Instruction) (rest : List Instruction) (s : Simulator H)
      → (advance n i (insn ∷ rest) s).finished ≡ s.finished
  unfolding advance
  advance-finished n i insn rest s = elim (Bool-cases insn.barrier) [
    | inl stop ↦ rw stop (arrive-finished n _)
    | inr go ↦ rw go
  ]

  -- The round for a thread that takes part, in whatever state its queue is.
  pub record Played (i : ℕ) (s u : Simulator H) : Type 0 where
    pub others : (k : ℕ) → k ≢ i → Untouched (s.threads k) (u.threads k)
    pub turn : Turn (s.threads i) (u.threads i)
    pub counted :
        u.finished + flag (s.threads i).finished ≡ s.finished + flag (u.threads i).finished

  advance_still :
      (n i : ℕ) (insn : Instruction) (rest : List Instruction) (s : Simulator H)
      → ((advance n i (insn ∷ rest) s).threads i).finished ≡ (s.threads i).finished
  unfolding advance fetch
  advance_still n i insn rest s =
      (Untouched-if insn.barrier n _ i).finished_eq
      ∙ ap (λ (t : Thread). t.finished) (update_self s.threads i _)

  Played-fetch :
      (n i : ℕ) (s : Simulator H) (insn : Instruction) (rest : List Instruction)
      → (s.threads i).instruction_queue ≡ insn ∷ rest
      → (s.threads i).finished ≡ false
      → Played i s (set_ignore i (advance n i (insn ∷ rest) s))
  Played-fetch n i s insn rest e fin = record {
    others = λ k ne.
        rw (set_ignore_others i (advance n i (insn ∷ rest) s) k ne)
          (advance_others n i (insn ∷ rest) s k ne);
    turn = Turn-fetch n i s insn rest e fin;
    counted = rw (
      set_ignore_self i (advance n i (insn ∷ rest) s),
      set_ignore-finished i (advance n i (insn ∷ rest) s),
      advance-finished n i insn rest s,
      advance_still n i insn rest s,
    );
  }

  Played-queue :
      (n i : ℕ) (s : Simulator H) (q : List Instruction)
      → (s.threads i).instruction_queue ≡ q
      → (s.threads i).finished ≡ false
      → IsFilled (s.threads i)
      → Played i s (set_ignore i (advance n i q s))
  unfolding advance
  Played-queue n i s [] e fin full = record {
    others =
        λ k ne. rw (set_ignore_others i (advance n i [] s) k ne) (advance_others n i [] s k ne);
    turn = Turn-end n i s e (full e);
    counted =
        rw (set_ignore_self i (advance n i [] s), ==_refl i, fin, set_ignore-finished)
          (omega arith);
  }
  Played-queue n i s (insn ∷ rest) e fin full = Played-fetch n i s insn rest e fin

  pub read_thread-Played :
      (n i : ℕ) (s : Simulator H)
      → runs (s.threads i) ≡ true
      → IsFilled (s.threads i)
      → Played i s (read_thread n i s)
  unfolding read_thread
  read_thread-Played n i s go full =
      rw go (Played-queue n i s (s.threads i).instruction_queue refl (ground arith) full)

  pub read_thread_idle :
      (n i : ℕ) (s : Simulator H) → runs (s.threads i) ≡ false → read_thread n i s ≡ s
  unfolding read_thread
  read_thread_idle n i s stop = rw stop
