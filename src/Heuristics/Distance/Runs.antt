-- ===== src/Heuristics/Distance/Runs.antt =====
-- Distance.cpp: who runs.
use mmt_sync.Base.{
  OnOk-then, sym, subst, ℕ, suc, ◌<◌, ◌≤◌, ◌≡◌, ◌^◌, List, ◌&&◌, ◌==◌, if_elim, Option, some, none,
  length, rounds, ok, err, ◌>>=◌, OnOk, OnOk-bind, OnOk-intro,
}
use mmt_sync.Base.Int.{pos}
use mmt_sync.Heuristics.Interface.{Threads}
use mmt_sync.Heuristics.Warp.{Warp, max_threads, any_of, split_warp}
use mmt_sync.Heuristics.Splitting.{Splits, split_warp-Splits}
use mmt_sync.Heuristics.Oracle.{warp_at, as_index, noignore}
use mmt_sync.Heuristics.Oracle.Groups.{RunsAll, set_active-RunsAll, few_awake}
use mmt_sync.Heuristics.Distance.States.{Distance}
use mmt_sync.Heuristics.Distance.Schedule.{
  compare_warp, no_best, next_schedule, rd_min_sp_pc_warp, best_at, fall_back, selected_or,
  more_slack, select_warp, run_at, schedule_warps, assert_awake,
}
use mmt_sync.Heuristics.Distance.Steps.{
  handle_divergence, with_states, join_warps, go_on, diverge, distance,
}

-- The warp is one of the list.
abbrev IsOf : List Warp → Warp → Type 0
IsOf ws w = (k : ℕ) × (warp_at ws k ≡ ok w)

warp_at-IsOf : (ws : List Warp) (k : ℕ) → OnOk (IsOf ws) (warp_at ws k)
warp_at-IsOf ws k = OnOk-intro (IsOf ws) (warp_at ws k) (λ w e. (k, e))

rd_min_sp_pc_warp-IsOf :
    (t : Threads) (s : Distance) (ws : List Warp) → OnOk (IsOf ws) (rd_min_sp_pc_warp t s ws)
unfolding rd_min_sp_pc_warp
rd_min_sp_pc_warp-IsOf t s ws =
    OnOk-then (IsOf ws) (rounds (length ws) (compare_warp t s ws) no_best) (best_at ws)
      (λ b. OnOk-then (IsOf ws) (as_index b.best_warp) (warp_at ws) (λ k. warp_at-IsOf ws k))

abbrev IsOfWarps : List Warp → Warp × Distance → Type 0
IsOfWarps ws p = IsOf ws p.0

fall_back-IsOf :
    (t : Threads) (s : Distance) (ws : List Warp) → OnOk (IsOfWarps ws) (fall_back t s ws)
unfolding fall_back
fall_back-IsOf t s ws =
    if_elim (OnOk (IsOfWarps ws)) (s.subheuristic == 0) _ _
      (λ min_sp. OnOk-bind (IsOf ws) (IsOfWarps ws) _ _ (rd_min_sp_pc_warp-IsOf t s ws) (λ w h. h))
      (λ other.
        if_elim (OnOk (IsOfWarps ws)) (s.subheuristic == 1) _ (err _)
          (λ turn. OnOk-bind (IsOf ws) (IsOfWarps ws) _ _ (warp_at-IsOf ws _) (λ w h. h))
          (λ wrong. tt))

selected_or-IsOf :
    (t : Threads) (s : Distance) (ws : List Warp) (o : Option ℕ)
    → OnOk (IsOfWarps ws) (selected_or t s ws o)
unfolding selected_or
selected_or-IsOf t s ws none = fall_back-IsOf t s ws
selected_or-IsOf t s ws (some i) =
    OnOk-bind (IsOf ws) (IsOfWarps ws) _ _ (warp_at-IsOf ws i) (λ w h. h)

select_warp-IsOf :
    (t : Threads) (s : Distance) (ws : List Warp) → OnOk (IsOfWarps ws) (select_warp t s ws)
unfolding select_warp
select_warp-IsOf t s ws =
    if_elim (OnOk (IsOfWarps ws)) (s.greedy && (length ws == 0)) (err _) _ (λ empty. tt)
      (λ some_left.
        OnOk-then (IsOfWarps ws) (rounds (length ws) (more_slack s ws) (pos 0, none)) _
          (λ p. selected_or-IsOf t (next_schedule (length ws) s) ws p.1))

abbrev pub RunsAllOf : ℕ → Threads → Threads × Distance → Type 0
RunsAllOf n t p = RunsAll n t p.0

run_at-RunsAll :
    (n : ℕ) (t : Threads) (ws : List Warp) (p : Warp × Distance)
    → Splits n t (noignore n t) ws
    → IsOf ws p.0
    → OnOk (RunsAllOf n t) (run_at n t p)
unfolding run_at
run_at-RunsAll n t ws (w, s) splits (k, e) =
    OnOk-then (RunsAllOf n t) (rounds n (assert_awake t w) tt) _
      (λ u. set_active-RunsAll n t ws k w splits e)

module _ (n : ℕ) (t : Threads) (small : n ≤ max_threads) (long : (i : ℕ) → (t i).pc < 2 ^ 64) where
  schedule_warps-RunsAll : (s : Distance) → OnOk (RunsAllOf n t) (schedule_warps n t s)
  unfolding schedule_warps
  schedule_warps-RunsAll s =
      let (ws, e, splits) =
        split_warp-Splits n t small long (suc n) (noignore n t) (few_awake n t) in
      subst (λ r. OnOk (RunsAllOf n t) (r >>= select_warp t s >>= run_at n t)) (sym e)
        (OnOk-bind (IsOfWarps ws) (RunsAllOf n t) (select_warp t s ws) (run_at n t)
          (select_warp-IsOf t s ws) (λ p h. run_at-RunsAll n t ws p splits h))

  go_on-RunsAll : (p : List Warp × Distance) → OnOk (RunsAllOf n t) (go_on n t p)
  unfolding go_on with_states
  go_on-RunsAll (ws, s) =
      let u = handle_divergence ws s in
      OnOk-bind (RunsAllOf n t) (RunsAllOf n t) (schedule_warps n t u) with_states
        (schedule_warps-RunsAll u) (λ p h. h)

  diverge-RunsAll : (s : Distance) (ws : List Warp) → OnOk (RunsAllOf n t) (diverge n t s ws)
  unfolding diverge
  diverge-RunsAll s ws =
      if_elim (OnOk (RunsAllOf n t)) (length ws == 0) (err _) _ (λ empty. tt)
        (λ some_left.
          OnOk-then (RunsAllOf n t) (join_warps n t ws s) (go_on n t) (λ p. go_on-RunsAll p))

-- Distance, for at most MAX_THREADS threads with a pc of 64 bits each, in any state: where a choice is
-- made, the active threads are exactly those at one pc that take part, at least one, and nothing of a
-- thread but `is_active` changes.
pub distance-RunsAll :
    (n : ℕ) (t : Threads) (s : Distance)
    → n ≤ max_threads
    → ((i : ℕ) → (t i).pc < 2 ^ 64)
    → OnOk (RunsAllOf n t) (distance n t s)
unfolding distance
distance-RunsAll n t s small long =
    if_elim (OnOk (RunsAllOf n t)) (any_of s.last_warp.mask) _ (err _)
      (λ some_left.
        OnOk-then (RunsAllOf n t) (split_warp (suc n) n t s.last_warp.mask) (diverge n t s)
          (λ ws. diverge-RunsAll n t small long s ws))
      (λ empty. tt)
