-- ===== src/Simulation/Rounded.antt =====
-- A round of the loop that throws nothing, from the parts: choice, check and analysis.
use mmt_sync.Base.{
  ℕ, ◌≡◌, refl, ◌∙◌, sym, ap, inl, inr, ok, Result-cases, OnOk, OnOk-eq, total_congr,
}
use mmt_sync.Heuristics.Interface.{Threads, Heuristic, Chooses, IsHeuristic}
use mmt_sync.Analyser.{Analyser, analyse}
use mmt_sync.Analyser.Consistent.{Round, IsBalanced, analyse-Round, analyse-IsBalanced}
use mmt_sync.Simulation.Defs.{Simulator, check_valid}
use mmt_sync.Simulation.Run.{State, round}
use mmt_sync.Simulation.Pending.{pending}
use mmt_sync.Simulation.Turn.{flag}
use mmt_sync.Simulation.Round.{Counts}
use mmt_sync.Simulation.Valid.{IsUnison, check_valid-IsUnison}

pub record Rounded {H : Type 0} (n : ℕ) (s : Simulator H) (a : Analyser) (r : State H)
    : Type 0 where
  pub chooses : Chooses n s.threads r.sim.threads
  pub first : ℕ
  pub unison : IsUnison r.sim.threads n first
  pub analysed : Round n r.sim.threads a r.analyser
  pub balanced : IsBalanced n a → IsBalanced n r.analyser
  pub finished_eq : r.sim.finished ≡ s.finished

pub pending-Chooses :
    {n : ℕ} {t u : Threads} → Chooses n t u → (k : ℕ) → pending (u k) ≡ pending (t k)
pending-Chooses c k = rw (c.queue k, c.not_eof k, c.file k)

module _ {H : Type 0} (h : Heuristic H) (n : ℕ) (law : IsHeuristic n h) where
  round-OnOk : (s : Simulator H) (a : Analyser) → OnOk (Rounded n s a) (round h n s a)
  unfolding round
  round-OnOk s a = elim (Result-cases (h.choose_threads n s.threads s.heuristic)) [
    | inr (stop, e) ↦ rw e tt
    | inl (chosen, e) ↦ rw e (elim (Result-cases (check_valid n chosen.0)) [
      | inr (stop, e') ↦ rw e' tt
      | inl (first, e') ↦ rw e' (elim (Result-cases (analyse n chosen.0 a)) [
        | inr (stop, e'') ↦ rw e'' tt
        | inl (b, e'') ↦ rw e'' (record {
          chooses = law.sound s.threads chosen.0 s.heuristic chosen.1 e;
          first = first;
          unison = check_valid-IsUnison chosen.0 n first e';
          analysed = analyse-Round n chosen.0 a b e'';
          balanced = analyse-IsBalanced n chosen.0 a b e'';
          finished_eq = refl;
        })
      ])
    ])
  ]

  pub round-Rounded :
      (s : Simulator H) (a : Analyser) (r : State H) → round h n s a ≡ ok r → Rounded n s a r
  round-Rounded s a r e = OnOk-eq (Rounded n s a) (round h n s a) r (round-OnOk s a) e

pub Rounded-Counts :
    {H : Type 0} {n : ℕ} {s : Simulator H} {a : Analyser} {r : State H}
    → Rounded n s a r
    → Counts n s
    → Counts n r.sim
Rounded-Counts {n = n} w c =
    w.finished_eq ∙ c ∙ total_congr n _ _ (λ k lt. ap flag (sym (w.chooses.finished k)))
