-- ===== src/Heuristics/Oracle/Distances.antt =====
-- GreedyOracle.cpp: every warp has a priority, above 0.
use native.Mathlib.Nat.{mod-lt}
use mmt_sync.Base.{
  ℕ, suc, ◌+◌, ◌-◌, ◌%◌, ◌<◌, ◌≤◌, ◌≡◌, ◌≢◌, ◌⊎◌, refl, sym, ap, ◌∙◌, subst, List, [], ◌∷◌, false,
  ◌||◌, ltb, ◌==◌, if◌then◌else◌, if_true, if_false, if_elim, Bool-cases, inl, inr, Option, none,
  some, length, for_inv, rounds_ok, update, update_all, ok, bind_ok, arith,
}
use mmt_sync.Trace.{Instruction}
use mmt_sync.Heuristics.Interface.{Threads}
use mmt_sync.Heuristics.Warp.{Warp, max_threads, ffs}
use mmt_sync.Heuristics.Splitting.{Splits}
use mmt_sync.Heuristics.Oracle.{
  Oracle, never, front_distance, shortest_distance, checked_sequence, behind_barrier, warp_at,
  as_index, closer, set_priority, priorities_of, consider, select, noignore,
}
use mmt_sync.Heuristics.Oracle.Queues.{Event, times, Ascending, Foresees}
use mmt_sync.Heuristics.Oracle.Lookup.{Sorted, times-Sorted}
use mmt_sync.Heuristics.Oracle.Groups.{IsGroup-ffs, Splits-IsGroup, Splits-apart, warp_at-below}

-- Every thread that is not ignored stands at its next instruction.
abbrev pub IsNext : ℕ → Threads → (ℕ → List Event) → Type 0
IsNext n t future =
    (i : ℕ)
    → i < n
    → (t i).ignore ≡ false
    → (insn : Instruction) × (sequence : ℕ) × (events : List Event) × (future i
        ≡ (insn, sequence) ∷ events)
      × (insn.pc ≡ (t i).pc)

checked_sequence_positive :
    (t : Threads) (s : Oracle) (tid orig front diff lookahead : ℕ)
    → 0 < diff
    → 0 < checked_sequence t s tid orig front diff lookahead
unfolding checked_sequence
checked_sequence_positive t s tid orig front diff lookahead lt = ground arith

front_distance_positive :
    (scaled : ℕ → ℕ) (t : Threads) (s : Oracle) (tid orig low : ℕ) (queue : List ℕ)
    → s.sequence_numbers tid < low
    → Sorted low queue
    → (d : ℕ) × (front_distance scaled t s tid orig queue ≡ ok d) × (0 < d)
unfolding Sorted
front_distance_positive scaled t s tid orig low [] lt h = (never, refl, omega arith)
front_distance_positive scaled t s tid orig low (front ∷ later) lt (first, rest) = (
  _,
  if_false (ltb front (s.sequence_numbers tid)) _ _ (ground arith),
  if_elim (λ d. 0 < d)
      (behind_barrier (s.barriers tid) front || ltb s.fake_horizon (front - s.sequence_numbers tid))
      never
      (checked_sequence t s tid orig front (front - s.sequence_numbers tid)
        (scaled (front - s.sequence_numbers tid)))
      (λ e. omega arith)
      (λ e.
        checked_sequence_positive t s tid orig front (front - s.sequence_numbers tid) _
          (omega arith)),
)

-- The instruction at a pc where the thread does not stand is in the future.
shortest_distance_positive :
    (scaled : ℕ → ℕ) (t : Threads) (s : Oracle) (future : ℕ → List Event) (insn : Instruction)
    (events : List Event) (pc tid orig sequence : ℕ)
    → Foresees s future
    → future tid ≡ (insn, sequence) ∷ events
    → insn.pc ≢ pc
    → (d : ℕ) × (shortest_distance scaled t s pc tid orig ≡ ok d) × (0 < d)
unfolding shortest_distance times Ascending
shortest_distance_positive scaled t s future insn events pc tid orig sequence h e ne =
    let (first, rest) = subst (Ascending (s.sequence_numbers tid)) e (h.ascending tid) in
    let at : s.timestamps tid pc ≡ times pc events =
      h.timestamps tid pc
      ∙ ap (times pc) e
      ∙ if_false (insn.pc == pc) _ (times pc events) (ground arith) in
    let (d, f, lt) =
      front_distance_positive scaled t s tid orig (suc sequence) (times pc events) (omega arith)
        (times-Sorted (suc sequence) pc events rest) in
    (d, ap (front_distance scaled t s tid orig) at ∙ f, lt)

module _ (scaled : ℕ → ℕ) (n : ℕ) (t : Threads) (s : Oracle) (future : ℕ → List Event)
    (ws : List Warp) (small : n ≤ max_threads) (next : IsNext n t future) (sees : Foresees s future)
    (splits : Splits n t (noignore n t) ws) where
  -- The first thread of a warp, and its next instruction.
  warp_next :
      (j : ℕ) (w : Warp)
      → warp_at ws j ≡ ok w
      → (r : ℕ) × (as_index (ffs w.mask) ≡ ok r)
        × (insn : Instruction) × (sequence : ℕ) × (events : List Event) × (future r
            ≡ (insn, sequence) ∷ events)
        × (insn.pc ≡ w.pc)
  warp_next j w e =
      let group = Splits-IsGroup n t ws (noignore n t) j w splits e in
      let (r, f, lt, hit) = IsGroup-ffs n t (noignore n t) w small group in
      let (awake, at) = group.inside r lt hit in
      let (insn, sequence, events, g, here) = next r lt (ground arith) in
      (r, ap as_index f, insn, sequence, events, g, here ∙ at)

  apart : (i j : ℕ) (v w : Warp) → i ≢ j → warp_at ws i ≡ ok v → warp_at ws j ≡ ok w → w.pc ≢ v.pc
  apart i j v w ne e f = elim (Bool-cases (ltb i j)) [
    | inl before ↦
        λ same. Splits-apart n t ws (noignore n t) i j v w splits (ground arith) e f (sym same)
    | inr after ↦ Splits-apart n t ws (noignore n t) j i w v splits (ground arith) f e
  ]

  closer_positive :
      (i ref j m : ℕ) (v : Warp)
      → warp_at ws i ≡ ok v
      → j < length ws
      → 0 < m
      → (d : ℕ) × (closer scaled t s ws i v ref j m ≡ ok d) × (0 < d)
  unfolding closer
  closer_positive i ref j m v e lt positive = elim (Bool-cases (i == j)) [
    | inl same ↦ (m, if_true (i == j) _ _ same, positive)
    | inr other ↦
        let (w, f) = warp_at-below ws j lt in
        let (r, g, insn, sequence, events, ahead, at) = warp_next j w f in
        let far : insn.pc ≢ v.pc = λ k. apart i j v w (ground arith) e f (sym at ∙ k) in
        let (d, dist, above) =
          shortest_distance_positive scaled t s future insn events v.pc r ref sequence sees ahead
            far in
        (
          (if ltb d m then d else m),
          if_false (i == j) _ _ other ∙ bind_ok _ _ _ f ∙ bind_ok _ _ _ g ∙ bind_ok _ _ _ dist,
          if_elim (λ k. 0 < k) (ltb d m) d m (λ _. above) (λ _. positive),
        )
  ]

  set_priority_positive :
      (i : ℕ) (priorities : ℕ → ℕ)
      → i < length ws
      → ((k : ℕ) → k < i → 0 < priorities k)
      → (next_ones : ℕ → ℕ) × (set_priority scaled t s ws i priorities ≡ ok next_ones)
        × ((k : ℕ) → k < suc i → 0 < next_ones k)
  unfolding set_priority
  set_priority_positive i priorities lt h =
      let (v, e) = warp_at-below ws i lt in
      let (ref, f, insn, sequence, events, ahead, at) = warp_next i v e in
      let (m, g, positive) =
        rounds_ok (λ _ m. 0 < m) (length ws) (closer scaled t s ws i v ref) never
          (λ j m below above. closer_positive i ref j m v e below above) (omega arith) in
      (
        update priorities i m,
        bind_ok _ _ _ e ∙ bind_ok _ _ _ f ∙ bind_ok _ _ _ g,
        update_all (λ k p. k < suc i → 0 < p) priorities i m (λ _. positive)
            (λ k ne below. h k (omega arith)),
      )

  -- No distance is 0, and none is asked of a thread that has no future.
  pub priorities_of_positive :
      (priorities : ℕ → ℕ) × (priorities_of scaled t s ws ≡ ok priorities)
      × ((k : ℕ) → k < length ws → 0 < priorities k)
  unfolding priorities_of
  priorities_of_positive =
      rounds_ok (λ i p. (k : ℕ) → k < i → 0 < p k) (length ws) (set_priority scaled t s ws) (λ _. 0)
        (λ i p lt h. set_priority_positive i p lt h) (λ k lt. absurd (omega arith))

-- After i rounds: nothing is selected before the first, and a warp after it.
abbrev Considered : ℕ → ℕ → Option ℕ × ℕ → Type 0
Considered nwarps i (selected, best) =
    ((i ≡ 0) × (best ≡ 0)) ⊎ ((r : ℕ) × (selected ≡ some r) × (r < nwarps))

consider-Considered :
    (nwarps counter : ℕ) (priorities : ℕ → ℕ) (i : ℕ) (p : Option ℕ × ℕ)
    → 0 < nwarps
    → ((k : ℕ) → k < nwarps → 0 < priorities k)
    → Considered nwarps i p
    → Considered nwarps (suc i) (consider nwarps counter priorities i p)
consider-Considered nwarps counter priorities i (selected, best) many positive h =
    let ii = (i + counter) % nwarps in
    let below : ii < nwarps = mod-lt (i + counter) many in
    if_elim (Considered nwarps (suc i)) (ltb best (priorities ii)) (some ii, priorities ii)
      (selected, best) (λ more. inr (ii, refl, below))
      (λ less. elim h [
        | inl (start, zeroed) ↦
            let above : 0 < priorities ii = positive ii below in absurd (ground arith)
        | inr (r, e, lt) ↦ inr (r, e, lt)
      ])

-- Where every priority is above 0, a warp is selected.
pub select-some :
    (nwarps counter : ℕ) (priorities : ℕ → ℕ)
    → 0 < nwarps
    → ((k : ℕ) → k < nwarps → 0 < priorities k)
    → (r : ℕ) × (select nwarps counter priorities ≡ some r) × (r < nwarps)
unfolding select
select-some nwarps counter priorities many positive =
    elim (for_inv (Considered nwarps) nwarps (consider nwarps counter priorities) (none, 0)
      (λ i p lt h. consider-Considered nwarps counter priorities i p many positive h)
      (inl (refl, refl))) [ inl (empty, zeroed) ↦ absurd (omega arith) | inr found ↦ found ]
