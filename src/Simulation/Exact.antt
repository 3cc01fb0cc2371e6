-- ===== src/Simulation/Exact.antt =====
-- The whole run of Execute/src/Simulation.cpp, by an invariant of its loop.
use mmt_sync.Base.{
  ℕ, zero, suc, ◌+◌, ◌%◌, ◌≤◌, ◌<◌, ◌≡◌, refl, ◌∙◌, sym, subst, ap, List, Bool, true, false, not,
  inl, inr, Option, some, Bool-cases, Result-cases, ◌==◌, ==_iff, arith, length, total,
  total_strict, total_congr, total-one, total-zero, Result, ok, err, OnOk,
}
use mmt_sync.Base.Int.{ℤ}
use mmt_sync.Trace.{open_file}
use mmt_sync.Trace.Decode.{decode}
use mmt_sync.Threads.{Thread, load}
use mmt_sync.Heuristics.Interface.{Threads, Heuristic, IsHeuristic}
use mmt_sync.Analyser.{Analyser, long_mod}
use mmt_sync.Analyser.Consistent.{IsBalanced, init-IsBalanced, check_result-ok}
use mmt_sync.Simulation.Defs.{Simulator, read_instructions}
use mmt_sync.Simulation.Run.{State, start, round, simulation}
use mmt_sync.Simulation.Read.{runs}
use mmt_sync.Simulation.Turn.{flag}
use mmt_sync.Simulation.Round.{Counts, Reads, read_instructions-Reads}
use mmt_sync.Simulation.Rounded.{Rounded, Rounded-Counts, round-Rounded}
use mmt_sync.Simulation.Account.{
  Before, After, work, Reads-After, Chooses-Before, work-Reads, work-runs, work-Chooses,
}

-- The instructions that the counters of the result agree with.
pub record IsComplete (n : ℕ) (lens : ℕ → ℕ) (a : Analyser) : Type 0 where
  pub executed : (k : ℕ) → k < n → a.instructions k ≡ lens k % long_mod
  pub balanced : IsBalanced n a

-- The loop returns, and a result is complete.
abbrev pub Ends : ℕ → (ℕ → ℕ) → Option (Result Analyser) → Type 0
Ends n lens o = (r : Result Analyser) × (o ≡ some r) × OnOk (IsComplete n lens) r

-- If the flags of all n threads add up to n, each is set.
all_finished :
    (n : ℕ) (t : Threads)
    → total n (λ k. flag (t k).finished) ≡ n
    → (k : ℕ) → k < n
    → (t k).finished ≡ true
all_finished n t e k lt = elim (Bool-cases (t k).finished) [
  | inl fin ↦ fin
  | inr not_yet ↦ absurd (
      omega (
        arith,
        e,
        total-one n,
        total_strict n (λ i. flag (t i).finished) (λ _. 1) k lt (rw not_yet (omega arith))
            (λ i _. flag_le (t i).finished),
      ))
]
  where
    flag_le : (b : Bool) → flag b ≤ 1
    flag_le true = omega arith
    flag_le false = omega arith

module _ {H : Type 0} (h : Heuristic H) (n : ℕ) (law : IsHeuristic n h) (lens : ℕ → ℕ) where
  -- The invariant at the head of the loop.
  record Head (s : State H) : Type 0 where
    threads : (k : ℕ) → k < n → Before (lens k) (s.analyser.instructions k) (s.sim.threads k)
    counts : Counts n s.sim
    balanced : IsBalanced n s.analyser

  total_work : Threads → ℕ
  total_work t = total n (λ k. work (t k))

  Read : State H → Simulator H
  Read s = read_instructions h n s.sim

  read-After :
      (s : State H)
      → Head s
      → (k : ℕ) → k < n
      → After (lens k) (s.analyser.instructions k) ((Read s).threads k)
  unfolding Read
  read-After s i k lt =
      Reads-After (lens k) (s.analyser.instructions k) (s.sim.threads k) ((Read s).threads k)
        ((read_instructions-Reads h n s.sim i.counts).0 k lt) (i.threads k lt)

  Head-finish : (s : State H) → Head s → (Read s).finished ≡ n → IsComplete n lens s.analyser
  unfolding Read
  Head-finish s i e = record {
    executed = λ k lt.
        let after = read-After s i k lt in
        let fin =
          all_finished n (Read s).threads (sym (read_instructions-Reads h n s.sim i.counts).1 ∙ e) k
            lt in
        omega (
          arith,
          after.account,
          after.small,
          ap length (after.ended fin),
          ap (λ b. flag (not b)) fin,
        );
    balanced = i.balanced;
  }

  Head-round : (s r : State H) → Head s → Rounded n (Read s) s.analyser r → Head r
  unfolding Read
  Head-round s r i w = record {
    threads = λ k lt.
        subst (λ d. Before (lens k) d (r.sim.threads k)) (sym (w.analysed.instructions_eq k lt))
          (Chooses-Before n (lens k) (Read s).threads r.sim.threads s.analyser k lt w.chooses
            (read-After s i k lt));
    counts = Rounded-Counts w (read_instructions-Reads h n s.sim i.counts).1;
    balanced = w.balanced i.balanced;
  }

  -- Some thread takes part in the next read.
  Live : Threads → Type 0
  Live t = (k : ℕ) × (k < n) × (runs (t k) ≡ true)

  Unison-Live : (s r : State H) → Head r → Rounded n (Read s) s.analyser r → Live r.sim.threads
  unfolding Live
  Unison-Live s r i w = (w.first, w.unison.below, still)
    where
      -- An active thread is not ignored, so it has not ended.
      still : runs (r.sim.threads w.first) ≡ true
      still = elim ((i.threads w.first w.unison.below).marked) [
        | inl m ↦ ground (
          arith,
          w.unison.active,
          w.chooses.ignore w.first,
          w.chooses.running w.first w.unison.below w.unison.active,
        )
        | inr go ↦ go
      ]

  work-read :
      (s : State H)
      → Head s
      → Live s.sim.threads
      → total_work (Read s).threads < total_work s.sim.threads
  unfolding Live Read total_work
  work-read s i (k, lt, go) =
      total_strict n (λ j. work ((Read s).threads j)) (λ j. work (s.sim.threads j)) k lt
        (work-runs (s.sim.threads k) ((Read s).threads k) (reads k lt) go)
        (λ j b. work-Reads (s.sim.threads j) ((Read s).threads j) (reads j b))
    where
      reads : (j : ℕ) → j < n → Reads (s.sim.threads j) ((Read s).threads j)
      reads = (read_instructions-Reads h n s.sim i.counts).0

  work-round :
      (s r : State H)
      → Rounded n (Read s) s.analyser r
      → total_work r.sim.threads ≡ total_work (Read s).threads
  unfolding total_work
  work-round s r w =
      total_congr n _ _ (λ k lt. work-Chooses n (Read s).threads r.sim.threads k w.chooses)

  simulation-Ends :
      (fuel : ℕ) (s : State H)
      → Head s
      → Live s.sim.threads
      → total_work s.sim.threads < fuel
      → Ends n lens (simulation h n fuel s)
  unfolding simulation Read
  simulation-Ends zero s i live lt = absurd (omega arith)
  simulation-Ends (suc fuel) s i live lt = elim (Bool-cases ((Read s).finished == n)) [
    | inl done ↦
        rw (done, simulation)
          (
            ok s.analyser,
            ap some (check_result-ok n s.analyser i.balanced),
            Head-finish s i ((==_iff _ n).0 done),
          )
    | inr more ↦
        rw (more, simulation)
          (elim (Result-cases (round h n (Read s) s.analyser)) [
            | inr (stop, e) ↦ rw e (err stop, refl, tt)
            | inl (r, e) ↦
                let w = round-Rounded h n law (Read s) s.analyser r e in
                let next = Head-round s r i w in
                rw e (
                  simulation-Ends fuel r next (Unison-Live s r next w)
                    (omega (arith, work-round s r w, work-read s i live)))
          ])
  ]

-- The traces, as the files hold them.
abbrev pub trace_length : (ℕ → List ℕ) → ℕ → ℕ
trace_length files k = length (decode (open_file (files k)))

module _ {H : Type 0} (h : Heuristic H) (n : ℕ) (law : IsHeuristic n h) where
  start-Before :
      (memory : Thread) (bytes : List ℕ)
      → Before (length (decode (open_file bytes))) 0 (load memory bytes)
  unfolding load
  start-Before memory bytes = record {
    small = omega arith;
    marked = inr refl;
    account = omega arith;
    ended = λ e. cc;
  }

  start-Head :
      (memory : ℕ → Thread) (counters : ℕ → ℤ) (num_fetches : ℕ) (files : ℕ → List ℕ)
      (heuristic : H)
      → Head h n law (trace_length files) (start memory counters num_fetches files heuristic)
  unfolding start load
  start-Head memory counters num_fetches files heuristic = record {
    threads = λ k lt. start-Before (memory k) (files k);
    counts = sym (total-zero n (λ _. 0) (λ k. refl));
    balanced = init-IsBalanced counters num_fetches n;
  }

  -- For a heuristic that meets its contract, n threads with n > 0, and any files: with more rounds of
  -- fuel than there are records and threads together, the loop of `simulation` returns. If no
  -- exception ends it, the counter of each thread below n is the number of records in its file,
  -- modulo 2^64, and the sums of `check_result` agree.
  pub simulation-Complete :
      (memory : ℕ → Thread) (counters : ℕ → ℤ) (num_fetches : ℕ) (files : ℕ → List ℕ)
      (heuristic : H)
      → 0 < n
      → (fuel : ℕ) → total n (λ k. trace_length files k + 1) < fuel
      → Ends n
          (trace_length files)
          (simulation h n fuel (start memory counters num_fetches files heuristic))
  unfolding start load Live total_work
  simulation-Complete memory counters num_fetches files heuristic pos fuel enough =
      simulation-Ends h n law (trace_length files) fuel _
        (start-Head memory counters num_fetches files heuristic) (0, pos, refl) enough
