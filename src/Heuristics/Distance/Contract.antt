-- ===== src/Heuristics/Distance/Contract.antt =====
-- Distance.cpp: the contract of the simulator.
use mmt_sync.Base.{
  ℕ, suc, List, ◌&&◌, ◌==◌, if_elim, length, rounds, rounds-OnOk, ok, err, ◌>>=◌, OnOk, OnOk-bind,
  OnOk-then, arith,
}
use mmt_sync.Heuristics.Interface.{Threads, IsHeuristic, set_active, set_active-Chooses}
use mmt_sync.Heuristics.Laws.{ChoosesFrom, lawful}
use mmt_sync.Heuristics.Warp.{Warp, any_of, split_warp, ffs}
use mmt_sync.Heuristics.Oracle.{noignore}
use mmt_sync.Heuristics.Oracle.Contract.{Checked, Checked-suc}
use mmt_sync.Heuristics.Distance.States.{Distance}
use mmt_sync.Heuristics.Distance.Schedule.{assert_awake, run_at, select_warp, schedule_warps}
use mmt_sync.Heuristics.Distance.Steps.{
  handle_divergence, with_states, join_warps, go_on, diverge, distance, DistanceHeuristic,
}

assert_awake-Checked :
    (t : Threads) (w : Warp) (i : ℕ) (u : Unit {0})
    → Checked t w i u
    → OnOk (Checked t w (suc i)) (assert_awake t w i u)
assert_awake-Checked t w i u h =
    if_elim (OnOk (Checked t w (suc i))) (w.mask i && (t i).ignore) (err _) (ok u) (λ ignored. tt)
      (λ up. Checked-suc t w i u u (λ hit. ground arith) h)

run_at-Chooses : (n : ℕ) (t : Threads) (p : Warp × Distance) → OnOk (ChoosesFrom n t) (run_at n t p)
unfolding run_at
run_at-Chooses n t (w, s) =
    OnOk-bind (Checked t w n) (ChoosesFrom n t) (rounds n (assert_awake t w) tt)
      (λ u. ok (set_active t w.mask, record s { last_warp = w; ref = ffs w.mask }))
      (rounds-OnOk (Checked t w) n (assert_awake t w) tt
        (λ i u lt h. assert_awake-Checked t w i u h) (λ k lt. absurd (omega arith)))
      (λ u h. set_active-Chooses n t w.mask h)

schedule_warps-Chooses :
    (n : ℕ) (t : Threads) (s : Distance) → OnOk (ChoosesFrom n t) (schedule_warps n t s)
unfolding schedule_warps
schedule_warps-Chooses n t s =
    OnOk-then (ChoosesFrom n t) (split_warp (suc n) n t (noignore n t) >>= select_warp t s)
      (run_at n t) (λ p. run_at-Chooses n t p)

go_on-Chooses :
    (n : ℕ) (t : Threads) (p : List Warp × Distance) → OnOk (ChoosesFrom n t) (go_on n t p)
unfolding go_on with_states
go_on-Chooses n t (ws, s) =
    let u = handle_divergence ws s in
    OnOk-bind (ChoosesFrom n t) (ChoosesFrom n t) (schedule_warps n t u) with_states
      (schedule_warps-Chooses n t u) (λ p h. h)

diverge-Chooses :
    (n : ℕ) (t : Threads) (s : Distance) (ws : List Warp)
    → OnOk (ChoosesFrom n t) (diverge n t s ws)
unfolding diverge
diverge-Chooses n t s ws =
    if_elim (OnOk (ChoosesFrom n t)) (length ws == 0) (err _) _ (λ empty. tt)
      (λ some_left.
        OnOk-then (ChoosesFrom n t) (join_warps n t ws s) (go_on n t) (go_on-Chooses n t))

pub DistanceHeuristic-IsHeuristic : (n : ℕ) → IsHeuristic n DistanceHeuristic
unfolding distance DistanceHeuristic
DistanceHeuristic-IsHeuristic n = lawful n DistanceHeuristic λ t s.
    if_elim (OnOk (ChoosesFrom n t)) (any_of s.last_warp.mask) _ (err _)
      (λ some_left.
        OnOk-then (ChoosesFrom n t) (split_warp (suc n) n t s.last_warp.mask) (diverge n t s)
          (diverge-Chooses n t s))
      (λ empty. tt)
