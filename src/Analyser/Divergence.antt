-- ===== src/Analyser/Divergence.antt =====
-- `divergence_statistics`.
use mmt_sync.Base.{
  ℕ, ◌+◌, List, [], ◌∷◌, Option, none, some, ◌&&◌, ◌||◌, not, ltb, ◌==◌, if◌then◌else◌, update, for,
}
use mmt_sync.Base.Int.{pos, sub_ℕ, pos_part, neg_part}
use mmt_sync.Heuristics.Interface.{Threads}
use mmt_sync.Statistics.{add}
use mmt_sync.Analyser.Defs.{Analyser, bump, collect, sort}

-- Length of divergent sections, for thread i.
unfoldable pub track_inactive : Threads → ℕ → Analyser → Analyser
unfolding add
track_inactive t i a =
    let tracked =
      if a.was_active i
      then (if (t i).is_active
          then a
          else record a { inactive_length = update a.inactive_length i 0 })
      else (if (t i).is_active
          then record a {
            divergence_length =
                if a.inactive_length i == 0
                then a.divergence_length
                else update a.divergence_length i
                    (add (a.divergence_length i) (pos (a.inactive_length i)));
            inactive_length = update a.inactive_length i 0;
          }
          else record a { inactive_length = bump a.inactive_length i }) in
    record tracked { was_active = update tracked.was_active i (t i).is_active }

-- Neighbours in the sorted list that differ.
unfoldable pub changes : ℕ → List ℕ → ℕ
changes prev [] = 0
changes prev (x ∷ xs) = (if x == prev then 0 else 1) + changes x xs

unfoldable pub different_pc : List ℕ → ℕ
unfolding changes
different_pc [] = 1
different_pc (x ∷ xs) = 1 + changes x xs

-- Path length unbalance between thread 0 and the others.
unfoldable pub track_unbalance : ℕ → Threads → ℕ → Analyser → Analyser
unfolding add
track_unbalance n t running a =
    if running == n
    then (if ltb 0 a.first_thread || ltb 0 a.other_thread
        then (let differece = sub_ℕ a.first_thread a.other_thread in
            let unbalance = pos (pos_part differece + neg_part differece) in
            record a {
              div_unbalance = add a.div_unbalance unbalance;
              div_differece = add a.div_differece differece;
              first_thread = 0;
              other_thread = 0;
            })
        else a)
    else if (t 0).is_active && ltb running n
    then record a { first_thread = a.first_thread + 1 }
    else if not (t 0).is_active
    then record a { other_thread = a.other_thread + 1 }
    else a

-- The first active thread, at which the loop over `alone_thread` breaks off.
unfoldable pub first_active : ℕ → Threads → Option ℕ
unfolding for
first_active n t =
    for n
      (λ i found. elim found [ none ↦ if (t i).is_active then some i else none | some k ↦ some k ])
      none

unfoldable pub track_alone : ℕ → Threads → ℕ → Analyser → Analyser
unfolding first_active
track_alone n t running a =
    if running == 1
    then elim (first_active n t) [
      | none ↦ a
      | some i ↦ record a { alone_thread = bump a.alone_thread i }
    ]
    else a

-- Nesting depth: the number of different program counters among the active threads.
unfoldable pub with_depth : ℕ → Threads → Analyser → Analyser
unfolding add collect sort different_pc
with_depth n t a =
    let depth = pos (different_pc (sort (collect n t (λ i. (t i).pc)))) in
    record a { divergence_depth = add a.divergence_depth depth }

unfoldable pub divergence_statistics : ℕ → Threads → ℕ → Analyser → Analyser
unfolding for track_inactive track_unbalance track_alone with_depth
divergence_statistics n t running a =
    track_alone n t running
      (track_unbalance n t running (with_depth n t (for n (track_inactive t) a)))
