-- ===== src/Heuristics/Queued.antt =====
-- The contract of the simulator, for Long.cpp and Long_IRB.cpp.
use mmt_sync.Base.{
  ℕ, zero, suc, ◌≡◌, true, false, inl, inr, Option, none, some, Bool-cases, ◌==◌, ◌&&◌, leb, arith,
  Result, ok, err, OnOk,
}
use mmt_sync.Heuristics.Interface.{
  Threads, Chooses, IsHeuristic, set_active, set_active-Chooses, activate-Chooses,
}
use mmt_sync.Heuristics.LongMin.{inside_block}
use mmt_sync.Heuristics.LongQueue.{
  Queue, LongIrb, LongHeuristic, long_irb, long, schedule, run_group, group, requeue, is_found,
  or_again, first_of,
}
use mmt_sync.Heuristics.Laws.{ChoosesFrom, lawful}

-- Whom nobody wrote to before the choice is chosen as well from the threads themselves.
Chooses-cleared :
    (n : ℕ) (t t' : Threads) → Chooses n (set_active t (λ _. false)) t' → Chooses n t t'
Chooses-cleared n t t' h = record {
  kept = h.kept;
  queue = h.queue;
  file = h.file;
  not_eof = h.not_eof;
  finished = h.finished;
  barrier = h.barrier;
  ignore = h.ignore;
  pc = h.pc;
  running = h.running;
}

OnOk-cleared :
    (n : ℕ) (t : Threads) (r : Result (Threads × Queue))
    → OnOk (ChoosesFrom n (set_active t (λ _. false))) r
    → OnOk (ChoosesFrom n t) r
OnOk-cleared n t (ok (t', s)) h = Chooses-cleared n t t' h
OnOk-cleared n t (err e) h = tt

group-ignore : (t : Threads) (j i : ℕ) → group t j i ≡ true → (t i).ignore ≡ false
group-ignore t j i e = ground arith

run_group-Chooses :
    (n : ℕ) (t : Threads) (s : Queue) (j : ℕ) → OnOk (ChoosesFrom n t) (run_group n t s j)
unfolding run_group
run_group-Chooses n t s j =
    elim (Bool-cases ((s.fhb.tamanho_fhb == 0) && is_found (first_of n (group t j)))) [
      | inl empty ↦ rw empty tt
      | inr room ↦ rw room (set_active-Chooses n t (group t j) (λ i lt e. group-ignore t j i e))
    ]

or_again-Chooses :
    (n : ℕ) (t : Threads) (again : Result (Threads × Queue)) (run : ℕ → Result (Threads × Queue))
    (o : Option ℕ)
    → OnOk (ChoosesFrom n t) again
    → ((j : ℕ) → OnOk (ChoosesFrom n t) (run j))
    → OnOk (ChoosesFrom n t) (or_again again run o)
or_again-Chooses n t again run none h k = h
or_again-Chooses n t again run (some j) h k = k j

schedule-Chooses :
    (fuel n : ℕ) (t : Threads) (s : Queue) → OnOk (ChoosesFrom n t) (schedule fuel n t s)
unfolding schedule
schedule-Chooses zero n t s = tt
schedule-Chooses (suc fuel) n t s =
    let queued = requeue n t s in
    or_again-Chooses n t
      (schedule fuel n (set_active t (λ _. false)) (record queued { nafila = 0; ref = none }))
      (run_group n (set_active t (λ _. false)) queued)
      (first_of n (λ j. leb queued.nafila j && queued.para_executar j))
      (OnOk-cleared n t
        (schedule fuel n (set_active t (λ _. false)) (record queued { nafila = 0; ref = none }))
        (schedule-Chooses fuel n (set_active t (λ _. false))
          (record queued { nafila = 0; ref = none })))
      (λ j.
        OnOk-cleared n t (run_group n (set_active t (λ _. false)) queued j)
          (run_group-Chooses n (set_active t (λ _. false)) queued j))

pub LongIrb-IsHeuristic : (fuel n : ℕ) → IsHeuristic n (LongIrb fuel)
unfolding long_irb
LongIrb-IsHeuristic fuel n = lawful n (LongIrb fuel) (schedule-Chooses fuel n)

-- Where Long makes a choice, with any fuel for its loop, it changes nothing of a thread but
-- `is_active`, and activates nobody below n who is ignored, in any state.
pub LongHeuristic-IsHeuristic : (fuel n : ℕ) → IsHeuristic n (LongHeuristic fuel)
unfolding long
LongHeuristic-IsHeuristic fuel n = lawful n (LongHeuristic fuel) λ t s.
    elim (Bool-cases (inside_block t s.ref)) [
      | inl inside ↦ rw inside (activate-Chooses n t s.ref)
      | inr new ↦ rw new (schedule-Chooses fuel n t s)
    ]
