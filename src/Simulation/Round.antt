-- ===== src/Simulation/Round.antt =====
-- `read_instructions`: the loop over the threads after a refill.
use mmt_sync.Base.{
  ℕ, suc, ◌<◌, ◌≤◌, ◌≡◌, ◌∙◌, sym, subst, ap, true, false, ◌⊎◌, inl, inr, arith, Bool-cases, ◌==◌,
  ==_iff, for_inv, total, total_change, total_congr,
}
use mmt_sync.Threads.{Thread}
use mmt_sync.Heuristics.Interface.{Heuristic}
use mmt_sync.Simulation.Defs.{Simulator, read_thread, read_instructions, refill}
use mmt_sync.Simulation.Pending.{pending, IsFilled, Kept}
use mmt_sync.Simulation.Refill.{refill-Refilled}
use mmt_sync.Simulation.Read.{runs, IsMarked, Advanced, ends, takes, Untouched, Untouched-refl}
use mmt_sync.Simulation.Turn.{Turn, Turn-Untouched, flag, read_thread-Played, read_thread_idle}

pub Untouched-trans : {t u v : Thread} → Untouched t u → Untouched u v → Untouched t v
Untouched-trans a b = record {
  pending_eq = b.pending_eq ∙ a.pending_eq;
  finished_eq = b.finished_eq ∙ a.finished_eq;
  active_eq = b.active_eq ∙ a.active_eq;
  pc_eq = b.pc_eq ∙ a.pc_eq;
  filled = λ h. b.filled (a.filled h);
  marked = λ h. b.marked (a.marked h);
}

-- The counter agrees with the flags.
abbrev pub Counts : {H : Type 0} → ℕ → Simulator H → Type 0
Counts n s = s.finished ≡ total n (λ k. flag (s.threads k).finished)

runs-Untouched : {t u : Thread} → Untouched t u → runs u ≡ runs t
runs-Untouched w = cc (w.finished_eq, w.active_eq)

-- A turn seen from an earlier state with the same records pending.
Advanced-after : {t u v : Thread} → pending u ≡ pending t → Advanced u v → Advanced t v
Advanced-after w (ends p q f) = ends (sym w ∙ p) q f
Advanced-after w (takes insn p f a) = takes insn (sym w ∙ p) f a

Turn-after : {t u v : Thread} → Untouched t u → Turn u v → Turn t v
Turn-after w r = record {
  advanced = Advanced-after w.pending_eq r.advanced;
  active_eq = r.active_eq ∙ w.active_eq;
  marked = r.marked;
}

module _ {H : Type 0} (n : ℕ) where
  -- After the rounds below j.
  record SoFar (s : Simulator H) (j : ℕ) (u : Simulator H) : Type 0 where
    pub idle : (k : ℕ) → runs (s.threads k) ≡ false → Untouched (s.threads k) (u.threads k)
    pub later : (k : ℕ) → j ≤ k → Untouched (s.threads k) (u.threads k)
    pub played : (k : ℕ) → k < j → runs (s.threads k) ≡ true → Turn (s.threads k) (u.threads k)
    pub counts : Counts n u

  SoFar-idle :
      (s : Simulator H) (j : ℕ) (u : Simulator H)
      → runs (s.threads j) ≡ false
      → SoFar s j u
      → SoFar s (suc j) u
  SoFar-idle s j u stop f = record {
    idle = f.idle;
    later = λ k le. f.later k (omega arith);
    played = λ k lt go. elim (Bool-cases (k == j)) [
      | inl e ↦ cc (subst (λ m. runs (s.threads m) ≡ false) (sym ((==_iff k j).0 e)) stop)
      | inr ne ↦ f.played k (ground arith) go
    ];
    counts = f.counts;
  }

  SoFar-turn :
      (s : Simulator H)
      → ((k : ℕ) → k < n → IsFilled (s.threads k))
      → (j : ℕ) (u : Simulator H) → j < n
      → runs (s.threads j) ≡ true
      → SoFar s j u
      → SoFar s (suc j) (read_thread n j u)
  SoFar-turn s full j u lt go f =
      let same = f.later j (omega arith) in
      let round = read_thread-Played n j u (runs-Untouched same ∙ go) (same.filled (full j lt)) in
      record {
        idle = λ k stop.
            Untouched-trans (f.idle k stop)
              (round.others k (λ e. cc (subst (λ m. runs (s.threads m) ≡ false) e stop)));
        later = λ k le. Untouched-trans (f.later k (omega arith)) (round.others k (omega arith));
        played = λ k below go_k. elim (Bool-cases (k == j)) [
          | inl e ↦
              subst (λ m. Turn (s.threads m) ((read_thread n j u).threads m))
                (sym ((==_iff k j).0 e)) (Turn-after same round.turn)
          | inr ne ↦ Turn-Untouched (f.played k (ground arith) go_k) (round.others k (ground arith))
        ];
        counts = omega (
          arith,
          f.counts,
          round.counted,
          total_change n (λ k. flag (u.threads k).finished)
              (λ k. flag ((read_thread n j u).threads k).finished) j lt
              (λ k ne. ap flag (sym (round.others k ne).finished_eq)),
        );
      }

  SoFar-step :
      (s : Simulator H)
      → ((k : ℕ) → k < n → IsFilled (s.threads k))
      → (j : ℕ) (u : Simulator H) → j < n
      → SoFar s j u
      → SoFar s (suc j) (read_thread n j u)
  SoFar-step s full j u lt f = elim (Bool-cases (runs (s.threads j))) [
    | inl go ↦ SoFar-turn s full j u lt go f
    | inr stop ↦
        subst (SoFar s (suc j))
          (sym (read_thread_idle n j u (runs-Untouched (f.later j (omega arith)) ∙ stop)))
          (SoFar-idle s j u stop f)
  ]

  SoFar-start : (s : Simulator H) → Counts n s → SoFar s 0 s
  SoFar-start s c = record {
    idle = λ k _. Untouched-refl (s.threads k);
    later = λ k _. Untouched-refl (s.threads k);
    played = λ k lt _. absurd (omega arith);
    counts = c;
  }

-- What `read_instructions` does to a thread, seen from the state before the refill.
pub record Reads (t u : Thread) : Type 0 where
  pub played : runs t ≡ true → Advanced t u
  pub rested : runs t ≡ false → (pending u ≡ pending t) × (u.finished ≡ t.finished)
  pub active_eq : u.is_active ≡ t.is_active
  pub marked : IsMarked t ⊎ (runs t ≡ true) → IsMarked u

Kept-IsMarked : {t u : Thread} → Kept t u → IsMarked t → IsMarked u
Kept-IsMarked k m = cc (k.ignore_eq, k.finished_eq, k.barrier_eq)

Kept-runs : {t u : Thread} → Kept t u → runs u ≡ runs t
Kept-runs k = cc (k.finished_eq, k.active_eq)

Reads-Turn : {t u v : Thread} → Kept t u → runs t ≡ true → Turn u v → Reads t v
Reads-Turn k go r = record {
  played = λ _. Advanced-after k.pending_eq r.advanced;
  rested = λ stop. cc;
  active_eq = r.active_eq ∙ k.active_eq;
  marked = λ _. r.marked;
}

Reads-rest : {t u v : Thread} → Kept t u → runs t ≡ false → Untouched u v → Reads t v
Reads-rest k stop r = record {
  played = λ go. cc;
  rested = λ _. (r.pending_eq ∙ k.pending_eq, r.finished_eq ∙ k.finished_eq);
  active_eq = r.active_eq ∙ k.active_eq;
  marked = elim [ inl m ↦ r.marked (Kept-IsMarked k m) | inr go ↦ cc ];
}

module _ {H : Type 0} (h : Heuristic H) where
  refill-Counts : (n : ℕ) (s : Simulator H) → Counts n s → Counts n (refill h n s)
  refill-Counts n s c =
      let r = refill-Refilled h n s in
      r.finished_eq ∙ c ∙ total_congr n _ _ (λ k lt. ap flag (sym (r.kept k).finished_eq))

  read_instructions-SoFar :
      (n : ℕ) (s : Simulator H) → Counts n s → SoFar n (refill h n s) n (read_instructions h n s)
  unfolding read_instructions
  read_instructions-SoFar n s c =
      for_inv (SoFar n (refill h n s)) n (read_thread n) (refill h n s)
        (SoFar-step n (refill h n s) (refill-Refilled h n s).filled)
        (SoFar-start n (refill h n s) (refill-Counts n s c))

  -- Where the counter `finished` is the number of threads below n that have ended, it is that again
  -- after `read_instructions`. Of the threads below n, each that is active and has not ended takes
  -- the next record of its trace, with its pc, or ends if none is left; the others keep what they
  -- have to execute. Everyone keeps `is_active`, and `ignore` then stands for having ended or
  -- waiting in the barrier, for those who took part and for those for whom it did before.
  pub read_instructions-Reads :
      (n : ℕ) (s : Simulator H)
      → Counts n s
      → ((k : ℕ) → k < n → Reads (s.threads k) ((read_instructions h n s).threads k))
        × Counts n (read_instructions h n s)
  read_instructions-Reads n s c = (threads, all.counts)
    where
      all : SoFar n (refill h n s) n (read_instructions h n s)
      all = read_instructions-SoFar n s c

      kept : (k : ℕ) → Kept (s.threads k) ((refill h n s).threads k)
      kept = (refill-Refilled h n s).kept

      threads : (k : ℕ) → k < n → Reads (s.threads k) ((read_instructions h n s).threads k)
      threads k lt = elim (Bool-cases (runs (s.threads k))) [
        | inl go ↦ Reads-Turn (kept k) go (all.played k lt (Kept-runs (kept k) ∙ go))
        | inr stop ↦ Reads-rest (kept k) stop (all.idle k (Kept-runs (kept k) ∙ stop))
      ]
