-- ===== src/Heuristics/Distance/Points.antt =====
-- Distance.cpp: `Reconvergence`, `MissedReconvergence`, `Divergence` and `UpdateStates`.
use mmt_sync.Base.{
  ℕ, suc, ◌+◌, ◌%◌, ◌^◌, List, [], ◌∷◌, Bool, true, ◌&&◌, not, ltb, ◌==◌, if◌then◌else◌, update,
  Result, ok, ◌>>=◌,
}
use mmt_sync.Base.Int.{ℤ, pos, pos_part, neg_part, ◌+ℤ◌, ◌-ℤ◌, ltb_ℤ, eqb_ℤ}
use mmt_sync.Heuristics.Warp.{Warp}
use mmt_sync.Heuristics.Distance.States.{
  unknown, InstructionState, WarpState, new_warp, Distance, to_ulong, both, either, none_of,
  warp_state, max_ℤ, is_looser, set_distance, bound_distance,
}

unfoldable pub put_warp : (ℕ → Bool) → WarpState → Distance → Distance
unfolding to_ulong
put_warp mask ws s = record s { warp_states = update s.warp_states (to_ulong mask) ws }

abbrev pub put_point : ℕ → (ℤ → ℤ) → Distance → Distance
put_point pc distance s = record s { divergence_points = update s.divergence_points pc distance }

-- `newtarget`: what the other warp went past its target is not counted.
unfoldable pub observed : WarpState → WarpState → ℤ
unfolding ◌-ℤ◌
observed ws1 ws2 =
    let overshoot = ws2.progress -ℤ ws2.target in
    if not (eqb_ℤ ws2.target unknown) && ltb_ℤ (pos 0) overshoot
    then ws1.progress -ℤ overshoot
    else ws1.progress

-- "Update divergence point data"
unfoldable pub update_point : WarpState → WarpState → (ℤ → ℤ) → Result (ℤ → ℤ)
unfolding observed
update_point ws1 ws2 distance =
    bound_distance distance ws1.origin ws1.progress (observed ws1 ws2)
    >>= (λ first. bound_distance first ws2.origin ws2.progress ws2.progress)

unfoldable pub observe : WarpState → WarpState → WarpState → Distance → Result Distance
unfolding update_point
observe ws1 ws2 parent s =
    if parent.last_div_pc == 0
    then ok s
    else (update_point ws1 ws2 (s.divergence_points parent.last_div_pc)
        >>= (λ distance. ok (put_point parent.last_div_pc distance s)))

-- "Recombine" and "Invalidate inconsistent data". The three masks have three numbers.
unfoldable pub recombine : (ℕ → Bool) → (ℕ → Bool) → Distance → Distance
unfolding put_warp warp_state ◌+ℤ◌
recombine mask1 mask2 s =
    let ws1 = warp_state s mask1 in
    let ws2 = warp_state s mask2 in
    let parent = warp_state s (either mask1 mask2) in
    put_warp mask2 new_warp (
      put_warp mask1 new_warp (
        put_warp (either mask1 mask2)
          (record parent { progress = parent.progress +ℤ max_ℤ ws1.progress ws2.progress }) s))

unfoldable pub reconvergence : (ℕ → Bool) → (ℕ → Bool) → Distance → Result Distance
unfolding observe recombine warp_state
reconvergence mask1 mask2 s =
    observe (warp_state s mask1) (warp_state s mask2) (warp_state s (either mask1 mask2)) s
    >>= (λ u. ok (recombine mask1 mask2 u))

-- `abs`
abbrev pub abs_ℤ : ℤ → ℕ
abs_ℤ a = pos_part a + neg_part a

-- `!ws1.origin`
abbrev pub other_origin : ℤ → ℤ
other_origin origin = if eqb_ℤ origin (pos 0) then pos 1 else pos 0

-- "Updating distance of divergence point", with an origin that is 0 or 1.
abbrev pub shorten : InstructionState → WarpState → Distance → Distance
shorten is parent s =
    let distance = s.divergence_points parent.last_div_pc in
    if parent.last_div_pc == 0
    then s
    else if is_looser distance is.origin is.progress
    then put_point parent.last_div_pc (set_distance distance is.origin is.progress) s
    else s

-- "Updating target of other warp"
unfoldable pub retarget : InstructionState → WarpState → Distance → Distance
unfolding put_warp
retarget is ws2 s =
    if eqb_ℤ ws2.target unknown && eqb_ℤ ws2.origin is.origin
    then put_warp is.last_warp (record ws2 { target = is.progress }) s
    else s

-- The early returns: `ignore_phantoms`, the limit, and the origins.
unfoldable pub is_ignored : InstructionState → WarpState → WarpState → ℕ → Bool
unfolding ◌-ℤ◌
is_ignored is ws1 ws2 limit =
    if ltb_ℤ ws2.progress is.progress
    then true
    else if ltb limit (abs_ℤ (ws2.progress -ℤ ws1.progress))
    then true
    else not (eqb_ℤ is.origin (other_origin ws1.origin))

unfoldable pub missed_reconvergence : InstructionState → Warp → Distance → Distance
unfolding is_ignored retarget warp_state
missed_reconvergence is warp1 s =
    let ws1 = warp_state s warp1.mask in
    let ws2 = warp_state s is.last_warp in
    let parent = warp_state s (either warp1.mask is.last_warp) in
    if is_ignored is ws1 ws2 s.unbalance_limit then s else retarget is ws2 (shorten is parent s)

-- "Init new warps": the warp i, on the state of the warps so far.
abbrev pub branch_target : ℕ → (ℤ → ℤ) → ℤ
branch_target i distance = if ltb i 2 then distance (pos i) else unknown

unfoldable pub inherited : ℤ → WarpState → ℤ
unfolding ◌-ℤ◌
inherited target mine =
    if eqb_ℤ target unknown && not (eqb_ℤ mine.target unknown)
    then max_ℤ (mine.target -ℤ mine.progress) unknown
    else target

unfoldable pub init_warps : Warp → (ℤ → ℤ) → ℕ → List Warp → Distance → Distance
unfolding put_warp warp_state inherited
init_warps original distance i [] s = s
init_warps original distance i (w ∷ ws) s =
    let started = record (warp_state s w.mask) {
      progress = pos 0;
      target = branch_target i distance;
    } in
    let mine = warp_state (put_warp w.mask started s) original.mask in
    init_warps original distance (suc i) ws (
      put_warp w.mask
        (record started { target = inherited (branch_target i distance) mine; origin = pos i }) s)

unfoldable pub divergence : Warp → List Warp → Distance → Distance
unfolding put_warp warp_state init_warps
divergence original ws s =
    let diverged = record (warp_state s original.mask) { last_div_pc = original.pc } in
    init_warps original (s.divergence_points original.pc) 0 ws (put_warp original.mask diverged s)

-- `if((is.lastWarp & warp.mask).none())`, and what the instruction remembers.
unfoldable pub count_miss : InstructionState → Warp → InstructionState
unfolding none_of
count_miss is warp =
    if none_of (both is.last_warp warp.mask)
    then record is { miss_counter = (is.miss_counter + 1) % 2 ^ 32 }
    else is

unfoldable pub find_miss : InstructionState → Warp → Distance → Distance
unfolding none_of missed_reconvergence
find_miss is warp s =
    if none_of (both is.last_warp warp.mask) then missed_reconvergence is warp s else s

unfoldable pub update_states : Warp → Distance → Distance
unfolding put_warp warp_state count_miss find_miss ◌+ℤ◌
update_states warp s =
    let ws = warp_state s warp.mask in
    let progress = ws.progress +ℤ pos 1 in
    let is = s.insn_states warp.pc in
    let after = find_miss is warp (put_warp warp.mask (record ws { progress = progress }) s) in
    record after {
      insn_states = update after.insn_states warp.pc (record (count_miss is warp) {
        last_warp = warp.mask;
        progress = progress;
        origin = (warp_state after warp.mask).origin;
      });
    }
