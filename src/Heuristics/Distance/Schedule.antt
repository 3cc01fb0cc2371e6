-- ===== src/Heuristics/Distance/Schedule.antt =====
-- Distance.cpp: `RDMinSPPC`, `RoundRobin` and `Schedule`.
use mmt_sync.Base.{
  ℕ, zero, suc, ◌+◌, ◌-◌, ◌%◌, ◌^◌, List, [], ◌∷◌, Bool, false, ◌&&◌, ◌||◌, not, ltb, leb, ◌==◌,
  min, if◌then◌else◌, Option, none, some, length, rounds, Result, ok, err, ◌>>=◌, assertion_failed,
  out_of_bounds, search_for,
}
use mmt_sync.Base.Int.{ℤ, pos, pos_part, ◌+ℤ◌, ◌-ℤ◌, ltb_ℤ, eqb_ℤ}
use mmt_sync.Heuristics.Interface.{Threads, set_active}
use mmt_sync.Heuristics.Warp.{Warp, split_warp, ffs}
use mmt_sync.Heuristics.Oracle.{warp_at, as_index, noignore}
use mmt_sync.Heuristics.Distance.States.{unknown, Distance, warp_state}

-- `min_prio`, `minprogress`, `minsp`, `minpc` and `bestwarp` of `RDMinSPPC`.
pub record BestWarp : Type 0 where
  pub min_prio : ℕ
  pub min_progress : ℤ
  pub min_sp : ℕ
  pub min_pc : ℕ
  pub best_warp : Option ℕ

abbrev pub no_best : BestWarp
no_best = record {
  min_prio = 2 ^ 32 - 1;
  min_progress = pos 0;
  min_sp = 2 ^ 64 - 1;
  min_pc = 2 ^ 64 - 1;
  best_warp = none;
}

-- `if(sp <= minsp)`
abbrev pub lower_sp : ℕ → ℕ → ℕ → BestWarp → BestWarp
lower_sp i sp pc b =
    if leb sp b.min_sp
    then if ltb pc b.min_pc
      then record b { min_sp = sp; min_pc = pc; best_warp = some i }
      else record b { min_sp = sp }
    else b

-- `if(e.missCounter <= min_prio + hysteresis || min_prio >= ignore_threshold)`
abbrev pub lower_prio : ℕ → ℕ → ℕ → ℕ → BestWarp → BestWarp
lower_prio i miss sp pc b =
    if leb miss ((b.min_prio + 0) % 2 ^ 32) || leb 8 b.min_prio
    then lower_sp i sp pc (record b { min_prio = min b.min_prio miss })
    else b

unfoldable pub compare_warp : Threads → Distance → List Warp → ℕ → BestWarp → Result BestWarp
unfolding warp_state ffs
compare_warp t s ws i b = warp_at ws i >>= (λ w.
    let progress = (warp_state s w.mask).progress in
    if not (ltb_ℤ b.min_progress (pos 0)) || eqb_ℤ progress unknown
    then (as_index (ffs w.mask) >>= (λ r. ok (
        lower_prio i (s.insn_states w.pc).miss_counter (t r).sp w.pc
          (record b { min_progress = progress }))))
    else ok b)

-- The warp, or a read of `allwarps[-1]`.
abbrev pub best_at : List Warp → BestWarp → Result Warp
best_at ws b = as_index b.best_warp >>= warp_at ws

unfoldable pub rd_min_sp_pc_warp : Threads → Distance → List Warp → Result Warp
unfolding compare_warp rounds
rd_min_sp_pc_warp t s ws = rounds (length ws) (compare_warp t s ws) no_best >>= best_at ws

-- "Prefer warps whose target == -1"
unfoldable pub is_untargeted : Distance → List Warp → ℕ → Bool
unfolding warp_state
is_untargeted s [] i = false
is_untargeted s (w ∷ ws) zero = eqb_ℤ (warp_state s w.mask).target unknown
is_untargeted s (w ∷ ws) (suc i) = is_untargeted s ws i

abbrev pub or_turn : ℕ → Option ℕ → ℕ
or_turn turn none = turn
or_turn turn (some i) = i

-- The warp's number, which is the new `rrcounter` too.
unfoldable pub round_robin_warp : Distance → List Warp → ℕ
unfolding is_untargeted search_for ◌+ℤ◌
round_robin_warp s ws =
    let turn = pos_part (s.rr_turn +ℤ pos 1) % length ws in
    or_turn turn (search_for (length ws) (λ i. (i + turn) % length ws) (is_untargeted s ws))

-- `maxslack` and `selectedWarp`; the greedy policy ends the loop with its first warp.
unfoldable pub slack : Distance → Warp → ℤ
unfolding warp_state ◌-ℤ◌
slack s w =
    let ws = warp_state s w.mask in
    if eqb_ℤ ws.target unknown then pos 0 else ws.target -ℤ ws.progress

abbrev pub is_done : Bool → Option ℕ → Bool
is_done greedy none = false
is_done greedy (some i) = greedy

unfoldable pub more_slack : Distance → List Warp → ℕ → ℤ × Option ℕ → Result (ℤ × Option ℕ)
unfolding slack
more_slack s ws i (most, selected) =
    let ii = if s.greedy then (i + s.rr_schedule) % length ws else i in
    if is_done s.greedy selected
    then ok (most, selected)
    else (warp_at ws ii
        >>= (λ w. ok (if ltb_ℤ most (slack s w) then (slack s w, some ii) else (most, selected))))

-- `switch(subheuristic)`
unfoldable pub fall_back : Threads → Distance → List Warp → Result (Warp × Distance)
unfolding rd_min_sp_pc_warp round_robin_warp
fall_back t s ws =
    if s.subheuristic == 0
    then rd_min_sp_pc_warp t s ws >>= (λ w. ok (w, s))
    else if s.subheuristic == 1
    then (let wid = round_robin_warp s ws in
        warp_at ws wid >>= (λ w. ok (w, record s { rr_turn = pos wid })))
    else err assertion_failed

unfoldable pub selected_or : Threads → Distance → List Warp → Option ℕ → Result (Warp × Distance)
unfolding fall_back
selected_or t s ws none = fall_back t s ws
selected_or t s ws (some i) = warp_at ws i >>= (λ w. ok (w, s))

-- `if(greedy)`
abbrev pub next_schedule : ℕ → Distance → Distance
next_schedule nwarps s =
    if s.greedy then record s { rr_schedule = (s.rr_schedule + 1) % nwarps } else s

-- The warp that `Schedule` selects; without a warp, the greedy policy divides by 0, and so do the
-- sub-heuristics, or they read `allwarps[-1]`.
unfoldable pub select_warp : Threads → Distance → List Warp → Result (Warp × Distance)
unfolding more_slack selected_or rounds
select_warp t s ws =
    if s.greedy && (length ws == 0)
    then err out_of_bounds
    else (rounds (length ws) (more_slack s ws) (pos 0, none)
        >>= (λ p. selected_or t (next_schedule (length ws) s) ws p.1))

-- "Update is_active": a round of the loop, which only asserts.
abbrev pub assert_awake : Threads → Warp → ℕ → Unit {0} → Result (Unit {0})
assert_awake t w i u = if w.mask i && (t i).ignore then err assertion_failed else ok u

-- `Schedule`: the threads, and the state with the new `lastWarp` and `ref`.
unfoldable pub run_at : ℕ → Threads → Warp × Distance → Result (Threads × Distance)
unfolding rounds ffs
run_at n t (w, s) =
    rounds n (assert_awake t w) tt
    >>= (λ u. ok (set_active t w.mask, record s { last_warp = w; ref = ffs w.mask }))

unfoldable pub schedule_warps : ℕ → Threads → Distance → Result (Threads × Distance)
unfolding split_warp select_warp run_at
schedule_warps n t s = split_warp (suc n) n t (noignore n t) >>= select_warp t s >>= run_at n t
