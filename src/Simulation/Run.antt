-- ===== src/Simulation/Run.antt =====
-- `Simulation::Simulation` and `Simulation::simulation`: the loop, with fuel for its rounds. `none`
-- means that the fuel ran out.
use mmt_sync.Base.{
  ℕ, zero, suc, List, Option, none, some, ◌==◌, true, false, Result, ok, err, ◌>>=◌,
}
use mmt_sync.Base.Int.{ℤ}
use mmt_sync.Threads.{Thread, load}
use mmt_sync.Heuristics.Interface.{Heuristic}
use mmt_sync.Analyser.{Analyser, init, analyse, check_result}
use mmt_sync.Simulation.Defs.{Simulator, read_instructions, check_valid}

-- The whole state: the fields that the reads use, and the analyser.
pub record State (H : Type 0) : Type 0 where
  pub sim : Simulator H
  pub analyser : Analyser

-- The constructor: `memory` is what the new arrays held, `files` the bytes of the trace files.
unfoldable pub start : {H : Type 0} → (ℕ → Thread) → (ℕ → ℤ) → ℕ → (ℕ → List ℕ) → H → State H
unfolding load init
start memory counters num_fetches files heuristic = record {
  sim = record {
    threads = λ i. load (memory i) (files i);
    heuristic = heuristic;
    horizon_sequence = λ _. 0;
    finished = 0;
    waiting_in_barrier = 0;
  };
  analyser = init counters num_fetches;
}

module _ {H : Type 0} (h : Heuristic H) (n : ℕ) where
  -- The body of the loop: choose, check, analyse.
  unfoldable pub round : Simulator H → Analyser → Result (State H)
  round s a = do
    (t, heuristic) ← h.choose_threads n s.threads s.heuristic
    first ← check_valid n t
    a' ← analyse n t a
    ok (record { sim = record s { threads = t; heuristic = heuristic }; analyser = a' })

  -- `while (read_instructions() != num_threads) { … } analyser.check_result();`
  -- `next` is the rest of the loop.
  unfoldable pub after_round :
      (State H → Option (Result Analyser)) → Result (State H) → Option (Result Analyser)
  after_round next (ok s) = next s
  after_round next (err e) = some (err e)

  unfoldable pub simulation : ℕ → State H → Option (Result Analyser)
  unfolding read_instructions round after_round check_result
  simulation zero s = none
  simulation (suc fuel) s =
      let read = read_instructions h n s.sim in
      elim (read.finished == n) [
        | true ↦ some (check_result n s.analyser)
        | false ↦ after_round (simulation fuel) (round read s.analyser)
      ]
