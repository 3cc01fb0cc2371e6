-- ===== src/Heuristics/Oracle/Chosen.antt =====
-- GreedyOracle.cpp: a warp is always found, and its threads are taken from the queues.
use mmt_sync.Base.{
  ℕ, suc, ◌+◌, ◌%◌, ◌^◌, ◌<◌, ◌≤◌, ◌≡◌, sym, ap, ◌∙◌, subst, fun_ext, List, [], ◌∷◌, Bool, true,
  false, ltb, ◌&&◌, ◌==◌, ==_iff, if◌then◌else◌, if_true, if_false, Bool-cases, inl, inr, drop,
  length, rounds_ok, update, ok, bind_ok, arith,
}
use mmt_sync.Heuristics.Interface.{Threads, set_active}
use mmt_sync.Heuristics.Warp.{Warp, max_threads}
use mmt_sync.Heuristics.Splitting.{Splits, split_warp-Splits}
use mmt_sync.Heuristics.Oracle.{
  warp_at, Oracle, oracle, choose_warp, run_selected, run_warp, leave, noignore,
}
use mmt_sync.Heuristics.Oracle.Queues.{Event, Foresees, unregister_instruction-Foresees}
use mmt_sync.Heuristics.Oracle.Groups.{
  IsGroup, Splits-IsGroup, RunsAll, set_active-RunsAll, warp_at-below, few_awake,
}
use mmt_sync.Heuristics.Oracle.Distances.{IsNext, priorities_of_positive, select-some}

-- All threads of one pc that take part are chosen, and the queues are those of what the threads
-- execute later.
pub record RunsWarp (n : ℕ) (t : Threads) (future : ℕ → List Event) (p : Threads × Oracle)
    : Type 0 where
  pub runs : RunsAll n t p.0
  pub foresees :
      Foresees p.1 (λ i. if ltb i n && (p.0 i).is_active then drop 1 (future i) else future i)

Foresees-congr :
    (s : Oracle) (f g : ℕ → List Event) → ((i : ℕ) → f i ≡ g i) → Foresees s f → Foresees s g
Foresees-congr s f g same h = subst (Foresees s) (fun_ext same) h

-- The future where the threads of the mask below i have left their first instruction.
abbrev left : (ℕ → List Event) → (ℕ → Bool) → ℕ → ℕ → List Event
left future mask i k = if ltb k i && mask k then drop 1 (future k) else future k

left-skip :
    (future : ℕ → List Event) (mask : ℕ → Bool) (i k : ℕ)
    → mask i ≡ false
    → left future mask i k ≡ left future mask (suc i) k
left-skip future mask i k out = elim (Bool-cases (k == i)) [
  | inl e ↦ let off : mask k ≡ false = ap mask ((==_iff k i).0 e) ∙ out in ground arith
  | inr ne ↦ ground arith
]

left-take :
    (future : ℕ → List Event) (mask : ℕ → Bool) (events : List Event) (i k : ℕ)
    → mask i ≡ true
    → drop 1 (future i) ≡ events
    → update (left future mask i) i events k ≡ left future mask (suc i) k
left-take future mask events i k hit e = elim (Bool-cases (i == k)) [
  | inl same ↦
      let at : i ≡ k = (==_iff i k).0 same in
      subst (λ j. update (left future mask i) i events j ≡ left future mask (suc i) j) at
        (if_true (i == i) _ _ (ground arith)
          ∙ sym e
          ∙ sym (if_true (ltb i (suc i) && mask i) _ _ (ground arith)))
  | inr ne ↦ ground arith
]

module _ (n : ℕ) (t : Threads) (future : ℕ → List Event) (next : IsNext n t future) where
  leave-Foresees :
      (w : Warp) (i : ℕ) (u : Oracle)
      → IsGroup n t (noignore n t) w
      → i < n
      → Foresees u (left future w.mask i)
      → (v : Oracle) × (leave t w i u ≡ ok v) × Foresees v (left future w.mask (suc i))
  unfolding leave
  leave-Foresees w i u group lt h = elim (Bool-cases (w.mask i)) [
    | inr out ↦ (
      u,
      if_false (w.mask i) _ _ out,
      Foresees-congr u _ _ (λ k. left-skip future w.mask i k out) h,
    )
    | inl hit ↦
        let (awake, at) = group.inside i lt hit in
        let up : (t i).ignore ≡ false = ground arith in
        let (insn, sequence, events, e, here) = next i lt up in
        let now : left future w.mask i i ≡ (insn, sequence) ∷ events =
          if_false (ltb i i && w.mask i) _ _ (ground arith) ∙ e in
        let (v, f, sees) =
          unregister_instruction-Foresees u (left future w.mask i) insn i sequence (t i).pc events h
            now here in
        (
          v,
          if_true (w.mask i) _ _ hit ∙ if_false (t i).ignore _ _ up ∙ f,
          Foresees-congr v _ _ (λ k. left-take future w.mask events i k hit (ap (drop 1) e)) sees,
        )
  ]

  run_warp-RunsWarp :
      (ws : List Warp) (k : ℕ) (w : Warp) (s : Oracle)
      → Splits n t (noignore n t) ws
      → warp_at ws k ≡ ok w
      → Foresees s future
      → (p : Threads × Oracle) × (run_warp n t s w ≡ ok p) × RunsWarp n t future p
  unfolding run_warp
  run_warp-RunsWarp ws k w s splits g sees =
      let group = Splits-IsGroup n t ws (noignore n t) k w splits g in
      let (u, e, h) =
        rounds_ok (λ i v. Foresees v (left future w.mask i)) n (leave t w) s
          (λ i v lt h. leave-Foresees w i v group lt h)
          (Foresees-congr s _ _ (λ j. sym (if_false (ltb j 0 && w.mask j) _ _ (ground arith)))
            sees) in
      (
        (set_active t w.mask, u),
        bind_ok _ _ _ e,
        record { runs = set_active-RunsAll n t ws k w splits g; foresees = h },
      )

  choose_warp-RunsWarp :
      (scaled : ℕ → ℕ) (s : Oracle) (w : Warp) (ws : List Warp)
      → n ≤ max_threads
      → Splits n t (noignore n t) (w ∷ ws)
      → Foresees s future
      → (p : Threads × Oracle) × (choose_warp scaled n t s (w ∷ ws) ≡ ok p) × RunsWarp n t future p
  unfolding choose_warp run_selected
  choose_warp-RunsWarp scaled s w ws small splits sees =
      let nwarps = length (w ∷ ws) in
      let turned : Oracle = record s { rrcounter = (s.rrcounter + 1) % nwarps } in
      let (priorities, e, positive) =
        priorities_of_positive scaled n t s future (w ∷ ws) small next sees splits in
      let (r, f, below) = select-some nwarps s.rrcounter priorities (omega arith) positive in
      let (v, g) = warp_at-below (w ∷ ws) r below in
      let (p, run, done) = run_warp-RunsWarp (w ∷ ws) r v turned splits g (record {
        timestamps = sees.timestamps;
        barriers = sees.barriers;
        ascending = sees.ascending;
      }) in
      (p, bind_ok _ _ _ e ∙ ap (run_selected n t turned (w ∷ ws)) f ∙ bind_ok _ _ _ g ∙ run, done)

  split-RunsWarp :
      (scaled : ℕ → ℕ) (s : Oracle) (i : ℕ) (ws : List Warp)
      → n ≤ max_threads
      → i < n
      → (t i).ignore ≡ false
      → Splits n t (noignore n t) ws
      → Foresees s future
      → (p : Threads × Oracle) × (choose_warp scaled n t s ws ≡ ok p) × RunsWarp n t future p
  unfolding Splits
  split-RunsWarp scaled s i [] small lt up splits sees = absurd (ground (arith, splits i lt))
  split-RunsWarp scaled s i (w ∷ ws) small lt up splits sees =
      choose_warp-RunsWarp scaled s w ws small splits sees

-- GreedyOracle, for at most MAX_THREADS threads with a pc of 64 bits each, of which one takes part,
-- where the queues are those of what the threads execute from here on, and each thread that takes
-- part stands at the first of it: `choose_threads` fails no assertion and reads no empty queue,
-- whatever `beta` and the horizon are. It chooses exactly the threads at one pc that take part, and at
-- least one; of a thread only `is_active` changes; and the queues are those of what the threads
-- execute after the instruction that has been chosen.
pub oracle-RunsWarp :
    (scaled : ℕ → ℕ) (n : ℕ) (t : Threads) (s : Oracle) (future : ℕ → List Event) (i : ℕ)
    → n ≤ max_threads
    → ((k : ℕ) → (t k).pc < 2 ^ 64)
    → IsNext n t future
    → Foresees s future
    → i < n
    → (t i).ignore ≡ false
    → (p : Threads × Oracle) × (oracle scaled n t s ≡ ok p) × RunsWarp n t future p
unfolding oracle
oracle-RunsWarp scaled n t s future i small long next sees lt up =
    let (ws, e, splits) = split_warp-Splits n t small long (suc n) (noignore n t) (few_awake n t) in
    let (p, f, done) = split-RunsWarp n t future next scaled s i ws small lt up splits sees in
    (p, bind_ok _ _ _ e ∙ f, done)
