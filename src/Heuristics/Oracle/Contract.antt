-- ===== src/Heuristics/Oracle/Contract.antt =====
-- GreedyOracle.cpp: the contract of the simulator.
use mmt_sync.Base.{
  OnOk-then, ℕ, suc, ◌<◌, ◌≡◌, sym, ap, ◌∙◌, subst, List, [], ◌∷◌, true, false, ◌==◌, ==_iff,
  if_elim, Bool-cases, inl, inr, some, none, Option, length, rounds, rounds-OnOk, ok, OnOk,
  OnOk-bind, OnOk-any, OnOk-map, arith,
}
use mmt_sync.Heuristics.Interface.{Threads, IsHeuristic, set_active, set_active-Chooses}
use mmt_sync.Heuristics.Laws.{ChoosesFrom, lawful}
use mmt_sync.Heuristics.Warp.{Warp, split_warp}
use mmt_sync.Heuristics.Oracle.{
  Oracle, GreedyOracle, oracle, choose_warp, priorities_of, select, warp_at, run_selected, run_warp,
  leave, unregister_instruction, noignore,
}

-- The assertion has held of the threads below i.
abbrev pub Checked : {H : Type 0} → Threads → Warp → ℕ → H → Type 0
Checked t w i u = (k : ℕ) → k < i → w.mask k ≡ true → (t k).ignore ≡ false

pub Checked-suc :
    {H : Type 0} (t : Threads) (w : Warp) (i : ℕ) (u v : H)
    → (w.mask i ≡ true → (t i).ignore ≡ false)
    → Checked t w i u
    → Checked t w (suc i) v
Checked-suc t w i u v at h k lt hit = elim (Bool-cases (k == i)) [
  | inl e ↦
      let same : k ≡ i = (==_iff k i).0 e in
      subst (λ j. (t j).ignore ≡ false) (sym same) (at (ap w.mask (sym same) ∙ hit))
  | inr ne ↦ h k (ground arith) hit
]

leave-Checked :
    (t : Threads) (w : Warp) (i : ℕ) (u : Oracle)
    → Checked t w i u
    → OnOk (Checked t w (suc i)) (leave t w i u)
unfolding leave
leave-Checked t w i u h =
    if_elim (OnOk (Checked t w (suc i))) (w.mask i) _ (ok u)
      (λ hit.
        if_elim (OnOk (Checked t w (suc i))) (t i).ignore _ (unregister_instruction (t i).pc i u)
          (λ ignored. tt)
          (λ up.
            OnOk-map (λ v. Unit {0}) (Checked t w (suc i)) _ (OnOk-any _)
              (λ v _. Checked-suc t w i u v (λ _. up) h)))
      (λ out. Checked-suc t w i u u (λ hit. cc) h)

run_warp-Chooses :
    (n : ℕ) (t : Threads) (s : Oracle) (w : Warp) → OnOk (ChoosesFrom n t) (run_warp n t s w)
unfolding run_warp
run_warp-Chooses n t s w =
    OnOk-bind (Checked t w n) (ChoosesFrom n t) (rounds n (leave t w) s)
      (λ u. ok (set_active t w.mask, u))
      (rounds-OnOk (Checked t w) n (leave t w) s (λ i u lt h. leave-Checked t w i u h)
        (λ k lt. absurd (omega arith)))
      (λ u h. set_active-Chooses n t w.mask h)

selected-Chooses :
    (n : ℕ) (t : Threads) (u : Oracle) (ws : List Warp) (o : Option ℕ)
    → OnOk (ChoosesFrom n t) (run_selected n t u ws o)
unfolding run_selected
selected-Chooses n t u ws none = tt
selected-Chooses n t u ws (some i) =
    OnOk-then (ChoosesFrom n t) (warp_at ws i) _ (λ v. run_warp-Chooses n t u v)

choose_warp-Chooses :
    (scaled : ℕ → ℕ) (n : ℕ) (t : Threads) (s : Oracle) (ws : List Warp)
    → OnOk (ChoosesFrom n t) (choose_warp scaled n t s ws)
unfolding choose_warp
choose_warp-Chooses scaled n t s [] = tt
choose_warp-Chooses scaled n t s (w ∷ ws) =
    OnOk-then (ChoosesFrom n t) (priorities_of scaled t s (w ∷ ws)) _ (λ priorities.
      selected-Chooses n t _ (w ∷ ws) (select (length (w ∷ ws)) s.rrcounter priorities))

pub GreedyOracle-IsHeuristic : (scaled : ℕ → ℕ) (n : ℕ) → IsHeuristic n (GreedyOracle scaled)
unfolding oracle GreedyOracle
GreedyOracle-IsHeuristic scaled n = lawful n (GreedyOracle scaled) λ t s.
    OnOk-then (ChoosesFrom n t) (split_warp (suc n) n t (noignore n t)) _
      (λ ws. choose_warp-Chooses scaled n t s ws)
