-- ===== src/Heuristics/Distance/Steps.antt =====
-- Distance.cpp: `choose_threads`.
use mmt_sync.Base.{
  ℕ, suc, List, [], ◌∷◌, Bool, ◌&&◌, not, ltb, ◌==◌, if◌then◌else◌, length, Result, ok, err, ◌>>=◌,
  assertion_failed,
}
use mmt_sync.Heuristics.Interface.{Threads, Heuristic}
use mmt_sync.Heuristics.Warp.{Warp, any_of, split_warp}
use mmt_sync.Heuristics.Distance.States.{Distance, either}
use mmt_sync.Heuristics.Distance.Points.{reconvergence, divergence, update_states}
use mmt_sync.Heuristics.Distance.Schedule.{schedule_warps}

-- "Look for other threads with same PC"
abbrev pub joining : ℕ → Threads → Warp → ℕ → Bool
joining n t w i = ltb i n && not (w.mask i) && not (t i).ignore && ((t i).pc == w.pc)

unfoldable pub join : ℕ → Threads → Warp → Distance → Result (Warp × Distance)
unfolding any_of reconvergence
join n t w s =
    let newmask = joining n t w in
    if any_of newmask
    then (reconvergence w.mask newmask s
        >>= (λ u. ok (record w { mask = either w.mask newmask }, u)))
    else ok (w, s)

-- "Reconverge"
unfoldable pub join_warps : ℕ → Threads → List Warp → Distance → Result (List Warp × Distance)
unfolding join
join_warps n t [] s = ok ([], s)
join_warps n t (w ∷ ws) s =
    join n t w s >>= (λ p. join_warps n t ws p.1 >>= (λ q. ok (p.0 ∷ q.0, q.1)))

-- "Handle divergence"
unfoldable pub handle_divergence : List Warp → Distance → Distance
unfolding divergence
handle_divergence ws s = if ltb 1 (length ws) then divergence s.last_warp ws s else s

unfoldable pub with_states : Threads × Distance → Result (Threads × Distance)
unfolding update_states
with_states (t, s) = ok (t, update_states s.last_warp s)

-- What comes after it.
unfoldable pub go_on : ℕ → Threads → List Warp × Distance → Result (Threads × Distance)
unfolding handle_divergence schedule_warps with_states
go_on n t (ws, s) = schedule_warps n t (handle_divergence ws s) >>= with_states

unfoldable pub diverge : ℕ → Threads → Distance → List Warp → Result (Threads × Distance)
unfolding join_warps go_on
diverge n t s ws =
    if length ws == 0 then err assertion_failed else (join_warps n t ws s >>= go_on n t)

unfoldable pub distance : ℕ → Threads → Distance → Result (Threads × Distance)
unfolding split_warp diverge any_of
distance n t s =
    if any_of s.last_warp.mask
    then split_warp (suc n) n t s.last_warp.mask >>= diverge n t s
    else err assertion_failed

unfoldable pub DistanceHeuristic : Heuristic Distance
unfolding distance
DistanceHeuristic = record {
  choose_threads = distance;
  register_instruction = λ insn tid sequence s. s;
}
